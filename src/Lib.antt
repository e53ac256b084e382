-- ===== src/Lib.antt =====
-- pyroute2, a library for Linux networking: a model of its core and the theorems that make it correct.
--
-- A request for the kernel is a netlink message with attributes. It takes a sequence number from an
-- address pool, is encoded into a buffer, and goes out. What comes back is put into the queue of its
-- sequence number, cut into messages, decoded, and given to the one who asked. Beside that, the DHCP
-- client is a state machine of its own, which sends and receives raw packets. The 9P server keeps a tree of
-- inodes and the fids of its clients; a request is decoded, handled and answered. A transaction of the
-- network database commits its objects in order, or rolls them back.
--
--   Common/AddrPool: `AddrPool` of pyroute2/common.py, the pool of sequence numbers and addresses:
--     `alloc` and `free` are the methods, `is_allocated` is what `locate` tells.
--   Netlink/Nla: `nlmsg_base` and its codecs in pyroute2/netlink/__init__.py: `encode_nla` and
--     `decode_nla` are `encode` and `decode` of an attribute, `encode_nlas` and `decode_nlas` bear
--     their names.
--   Netlink/Marshal: `Marshal` of pyroute2/netlink/marshal.py: `parse` and `parse_one_message`.
--   Netlink/Conversation: `CoreMessageQueue` and `AsyncCoreSocket.get` of pyroute2/netlink/core.py,
--     and `enqueue` of pyroute2/netlink/nlsocket.py.
--   Dhcp/Fsm, Dhcp/Xids, Dhcp/Leases, Dhcp/Messages: the modules of pyroute2/dhcp by these names;
--     Dhcp/Leases has the timers of pyroute2/dhcp/timers.py too.
--   Dhcp/Options: the options of a message, in pyroute2/dhcp/__init__.py.
--   Dhcp/Machine: the state of `AsyncDHCPClient` in pyroute2/dhcp/client.py, and its sender:
--     `send_message` is `_send_message`, a round of `_send_forever` is `send_round`.
--   Dhcp/Client: the handlers of `AsyncDHCPClient`, a function for each, by their names, and the step
--     relation `Step` of Dhcp/Client/Reachable for the order in which they may run.
--   Requests/Processor: `RequestProcessor` of pyroute2/requests/main.py, the dict whose items pass the
--     filters: `set_item` is `__setitem__`, `update_items` is `update`; the filters are parameters.
--   Ndb/Transaction: `Transaction`, `CheckProcess` and `Not` of pyroute2/ndb/transaction.py.
--   Ndb/Events: `State` of pyroute2/ndb/events.py, the log of the states of an object.
--   Ndb/Object: `AsyncObject` of pyroute2/ndb/objects/__init__.py: `set_item` is `__setitem__`, and
--     `run` of Ndb/Object/Rounds is the loop of the API calls in `apply`, with 10 rounds as in the code.
--     The request is that of Ndb/Object/Requests, `Step` of Ndb/Object/Reachable is what may happen to
--     an object, and `commit` of Ndb/Object/Commits is that of an object that is not in the system.
--     What the database holds, and the errors and the events of a round, are given to it.
--   Plan9/Codec, Plan9/Messages: the field types, the messages and `Marshal9P` of
--     pyroute2/plan9/__init__.py; Plan9/Utf8 and Plan9/Reader are what they use of Python,
--     and Dhcp/Options too.
--   Plan9/Filesystem: the inodes and the `Filesystem` of pyroute2/plan9/filesystem.py.
--   Plan9/Server: `Plan9ServerProtocol` of pyroute2/plan9/server.py, a function for each handler, by
--     their names; `serve` is the loop of `data_received`, and `Step` of Plan9/Server/Reachable is
--     what may happen to a server.
--   Prelude: lists, bits and bytes that the parts share.
--
-- Numbers are natural numbers, and a buffer is a list of bytes; struct.pack refuses what does not fit
-- its width. An error is a value: `none` for struct.error where there is only one, else a result type
-- of the component. State is passed along.
--
-- Loops on fuel: the search for a set bit has as many rounds as a cell has bits; `alloc` calls itself
-- once, since the second call finds the cell that the first one added; `decode_nlas` goes on by four
-- bytes a round, `parse` and the decoder of the options by one at least, so the length of the buffer is
-- enough; `decode_nla` takes the depth of nesting, which the message bounds. The theorems show that the
-- fuel is enough, but for `parse` with `skip_alien_seq`, where none is.
--
-- Not modelled: locks, threads and suspended hooks (handlers run one at a time), arrays of attributes,
-- the snapshots of NDB objects and the rollback of those that are in the system, the event loop and
-- sockets, files, and all components that are calls of the operating system, of a database or of other
-- tools.
pub mod Prelude
pub mod Common
pub mod Netlink
pub mod Dhcp
pub mod Requests
pub mod Ndb
pub mod Plan9
