-- ===== src/Lib.antt =====
-- The verification library of go-mumble-server, a Mumble voice server with a cluster of edges.
--
-- Parts and how they interact. A client's voice packets are opened by its crypt state, which runs
-- OCB2 or AES-GCM; an edge holds the client's session, which the core's registry knows by its id and
-- generation; what the client may do in a channel is the ACL evaluator's answer, which walks the channel
-- tree; the mute and deafen flags, the ban list, the connected users and the listeners of channels are kept
-- by the core as well, and decide who is sent a voice frame. Its control channel carries framed packets of protobuf fields.
--
-- Files, with the code that each models:
--   Crypto/Block, Crypto/Ocb2      pkg/mumble/crypto/ocb2/ocb2.go: `xor`, `times2`, `times3`, `Encrypt`,
--                                  `Decrypt`. A slice that is written to is an argument and a result.
--   Crypto/CryptState              pkg/mumble/crypto/cryptstate.go: `CryptState` as a record, each method a
--                                  function from the old state to the new one, the contents of `dst` and
--                                  the error. Legacy, Replay, Secure and Window below it are proofs.
--   Cluster/Registry               internal/cluster/registry.go, types.go: `Registry` as two association
--                                  lists; a call is one atomic step, as its locks make it, but `CloseAndUnbind`
--                                  is two, between which other calls may come.
--   Channel, Channel/Edit,         internal/channel/manager.go: the tree, `AncestorChain`, `Create`, `Update`,
--   Channel/Links,                 `Remove`, `CleanEmptyTempChannels`, `UpdateLinks`, `LinkedChannelIDs`,
--   Channel/Connected              `ConnectedChannelIDs`.
--   Acl/Selector, Acl/Group        internal/acl/group.go: `parseSelector`, `entryMatches`, `matchSelector`,
--                                  `matchSub`, `storedGroup`, `InGroup`.
--   Acl/Evaluator                  internal/acl/evaluator.go, pkg/mumble/permission.go: `evaluate`,
--                                  `permissions`, `Check`, `resolveUser`, `EnterRestrictedChannels`.
--   Voice                          internal/mumble/voicestate.go: the flags of a user and the message.
--   Ban                            internal/ban/manager.go: `loadLocked`, `Replace`, `List`, `IsBanned`,
--                                  `matchAddr`.
--   Audio/Varint                   pkg/mumble/audio/varint.go: `DecodeVarint`, `EncodeVarint`.
--   Audio/Legacy                   pkg/mumble/audio/legacy.go, frame.go, cache.go: `decodeLegacy`, `encodeLegacy`,
--                                  `MergeDelivery`, `NegotiateWireMode`. A float32 is the number its bits write.
--   Audio/Router                   internal/audio/router.go: `Route`, `RouteRef`.
--   Protocol/Wire                  pkg/mumble/protocol/wire/wire.go: numbers, tags and fields; a reader returns
--                                  the value and the bytes it took, or the error.
--   Protocol/Framing               pkg/mumble/protocol/framing.go, codec.go, handler.go: packets on a stream.
--   Server/Listeners               internal/mumble/listeners.go: who listens to which channel, and
--                                  `applyListening`, between whose steps other connections may come.
--   Users/Pool, Users/Manager,     internal/user/manager.go: session ids, the users by session and by name with
--   Users/Views                    the records they share as a heap, and the reads of them.
--   Base                           lists, maps, bits, integers and Boolean tests that these share.
-- The modules called Tests run the models on small inputs, with the cipher of Crypto/Samples.
--
-- Bounds and fuel. Machine words keep their wrap-around (`u32`, `u64`, `% 256`). The loops of OCB2 take
-- the length of the message as fuel: a round takes 16 bytes of it. The walk to the root takes one
-- round more than there are channels, since each round marks a new channel, and so does the cleaning of
-- temporary channels, since each round takes one away; the search for connected channels takes a round
-- for each channel it finds.
--
-- Parameters. The block cipher and the AEAD of Go's standard library are the records `Cipher` and `Aead`,
-- with the laws that decryption undoes encryption and that a tag has 16 bytes. The database, its
-- failures, string folding and parsing are functions that the definitions take (`Outside`, `Database`).
--
-- Not modelled: sockets, TLS, HTTP, configuration and the schema, which are input and output; the large
-- handlers, the protobuf voice packets, the messages' codecs, the cluster's control protocol; of the modelled files,
-- key generation, the cache of the evaluator, temporary group members, the callbacks under a session's
-- lock, the load of the channel tree and the walks down from a channel.
pub mod Base
pub mod Crypto
pub mod Cluster
pub mod Channel
pub mod Acl
pub mod Voice
pub mod Ban
pub mod Audio
pub mod Protocol
pub mod Server
pub mod Users
