-- ===== src/Netlink/Nla/Faithful.antt =====
-- What a message must be to survive `encode` and `decode`, and what is read back of it.
use pyroute.Prelude.{
  ℕ, suc, ◌%◌, ◌≡◌, refl, max, true, false, Option, some, none, List, [], ◌∷◌, ◌++◌,
}
use pyroute.Netlink.Nla.{
  Layout, fields, zstring, Class, Entry, Message, message, string, Attrs, no_attrs, attr, by_name,
  by_key, strip, size_of,
}
use pyroute.Netlink.Nla.Words.{IsType}
use pyroute.Netlink.Nla.Fields.{filled}
use pyroute.Netlink.Nla.Encode.{}

unfoldable pub filled_layout : Layout → List ℕ → List ℕ
filled_layout (fields fs) vs = filled fs vs
filled_layout (zstring z) vs = []

unfoldable pub known_attr : (Entry → Message) → Attrs → Option Entry → Attrs
known_attr f rest none = rest
known_attr f rest (some e) = attr e.name (f e) rest

-- A string class keeps `s`; with `zstring`, `decode` strips zeros off both ends.
abbrev pub KeepsString : Layout → List ℕ → Type 0
KeepsString (fields fs) s = ⊥
KeepsString (zstring true) s = strip (s ++ 0 ∷ []) ≡ s
KeepsString (zstring false) s = Unit

-- A class of fields: attributes may follow only fields of a whole number of words.
abbrev pub KeepsFields : Layout → List Entry → Type 0
KeepsFields (fields fs) [] = Unit
KeepsFields (fields fs) (e ∷ m) = size_of fs % 4 ≡ 0
KeepsFields (zstring z) m = ⊥

module _ (classes : ℕ → Class) where
  unfoldable mutual
    -- What is read back of a message: all fields, and the attributes whose names are known.
    pub read_back : ℕ → Message → Message
    read_back c (message vs as') =
        message (filled_layout (classes c).layout vs) (known_attrs (classes c).nla_map as')
    read_back c (string s) = string s

    pub known_attrs : List Entry → Attrs → Attrs
    known_attrs m no_attrs = no_attrs
    known_attrs m (attr n v as') =
        known_attr (λ e. read_back e.class v) (known_attrs m as') (by_name m n)

  abbrev mutual
    -- Each known attribute can be found again by its type, and nothing under it is lost.
    pub IsFaithful : ℕ → Message → Type 0
    IsFaithful c (message vs as') =
        KeepsFields (classes c).layout (classes c).nla_map × AreFaithful (classes c).nla_map as'
    IsFaithful c (string s) = KeepsString (classes c).layout s

    pub AreFaithful : List Entry → Attrs → Type 0
    AreFaithful m no_attrs = Unit
    AreFaithful m (attr n v as') =
        ((e : Entry)
          → by_name m n ≡ some e
          → (by_key m e.key ≡ some e) × IsType e.key e.nla_flags × IsFaithful e.class v)
        × AreFaithful m as'

unfoldable mutual
  -- The depth of nesting.
  pub height : Message → ℕ
  height (message vs as') = suc (height_attrs as')
  height (string s) = 1

  pub height_attrs : Attrs → ℕ
  height_attrs no_attrs = 0
  height_attrs (attr n v as') = max (height v) (height_attrs as')

-- A class with no map keeps no attribute.
pub known_attrs-nil : (classes : ℕ → Class) (as' : Attrs) → known_attrs classes [] as' ≡ no_attrs
unfolding known_attrs known_attr by_name
known_attrs-nil classes no_attrs = refl
known_attrs-nil classes (attr n v rest) = known_attrs-nil classes rest
