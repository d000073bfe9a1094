-- ===== src/Lib.antt =====
-- Verification of mls-go: an implementation of Messaging Layer Security (RFC 9420) in Go, and of
-- the key agreement of a data-center fabric (ironcore) on top of it.
--
-- The parts of the program, and the modules that model them. Paths are from the root of the
-- repository.
--   mls/syntax: the TLS presentation language. A message is written into a builder and read from a
--     cursor. `Syntax.Varint` is varint.go; `Syntax.Builder` and `Syntax.Cursor` are codec.go;
--     `Syntax.Vector` is vector.go. A method that changes its receiver takes it as an argument and
--     returns it; an error is a value of `Result`, of `Prelude.Outcome`, with one constructor for
--     each message of the source. `Syntax.Format` is the interface between these and the packages
--     above: a format is an encoder and a decoder that undo one another, and `Struct`, `Union`,
--     `Vector`, `Optional` and `Message` build the formats of the wire types from those of their
--     fields, in the order in which the source writes and reads them.
--   mls/tree: `Tree.Credential`, `Tree.LeafNode`, `Tree.UpdatePath`, `Tree.ParentNode` and their
--     parts are the types and codecs of credential.go, leaf.go, updatepath.go and parent.go: `marshal`
--     and `decode_...` are the methods and functions of these names, `marshal_mls` and
--     `unmarshal_mls` are MarshalMLS and UnmarshalMLS. `Tree.Math` is math.go; `Tree.Node` and
--     `Tree.RatchetTree` are node.go; `Tree.RatchetTree.Mutate` is mutate.go, whose changes return
--     the new tree, and its children prove what they do: `Path`, `Walk`, `Ancestors` and `Change`
--     on the walk from a leaf to the root, `Complete` on the widths, `FindBlank`, `Leaves`, `Joins`,
--     `Unmerged` and `Shape` on the operations and runs of them.
--   mls/cipher: `Cipher` is the suite and its labelled functions, of suite.go, aead.go,
--     keyschedule.go and labeled.go. What the source takes from Go's standard library is a field of
--     the record `Suite`: the hash, HMAC, HKDF, the signature checks, AES-GCM and HPKE; a
--     `Signer` is the one method of crypto.Signer that is called. `Cipher.Sample` is a suite of
--     constant functions, for the tests.
--   mls/keyschedule: `KeySchedule.GroupContext` is context.go, `KeySchedule.PreSharedKeyId` and
--     `KeySchedule.PskSecret` are psk.go; `KeySchedule.Schedule`, `KeySchedule.Transcript` and
--     `KeySchedule.SecretTree` are schedule.go, transcript.go and secrettree.go.
--   mls/group: `Group.Proposal`, `Group.Commit`, `Group.KeyPackage`, `Group.Welcome`,
--     `Group.GroupInfo` and their parts are the codecs of the files of these names.
--   mls/framing: `Framing.Sender`, `Framing.Skim`, `Framing.Content`, `Framing.AuthData` and
--     `Framing.AuthenticatedContent` are framing.go; `Framing.PublicMessage` and its child
--     `Protection` are public.go; `Framing.PrivateMessage` and its children are private.go;
--     `Framing.MlsMessage` is message.go and `Framing.Generate` is SignCommit of generate.go, whose
--     AssembleCommitPublic stands with the public messages. A function that advances a cursor and
--     returns no value is a function to the cursor that it leaves. UnmarshalMLS of message.go takes
--     its receiver, of which it may leave a body alone.
--   ironcore/sequencer: the authority that decides the one commit of an epoch. `Sequencer.Key` and
--     `Sequencer.Memory` are sequencer.go; `Sequencer.Lease`, `Sequencer.Register` and
--     `Sequencer.Fenced` are the lease store, the register and the sequencer of fencing.go, and
--     `Sequencer.Fork` is fork.go, `Sequencer.TieBreak` tiebreak.go, where `none` is a nil slice. A
--     mutex makes each call one step, so concurrent callers are a list of calls; a clock's reading is
--     an argument of the call that takes it. A map of the source is an association list.
--   ironcore: `Ironcore.Vni` is vni.go, `Ironcore.SecurityAssociation` sa.go. DeriveSAKeys takes the
--     group as its cipher suite, epoch, own leaf and exporter.
--
-- Conventions. Numbers are natural numbers; where the source's machine integers wrap, the remainder
-- is written out, and `InRange` says of a record that its fields hold what their Go types can hold.
-- A tagged union is one record of the source with a tag and the fields of every case: the fields
-- that a tag does not use are at their zero values in `InRange`, as the decoder leaves them.
--
-- Loops. The loops of ReadVectorV, math.go and fullWidth run on a number of rounds. A vector's loop has as
-- many rounds as its body has bytes, and that is enough because every element takes a byte at least.
-- The walks of `right` and `parent` have 32 rounds, one for each level of a tree of 32-bit indices,
-- and so has `full_width`, whose width gains a binary digit in each. So has the loop of mutate.go along
-- a direct path, and the recursion of the secret tree, whose children are at lower levels.
--
-- Not modelled: cryptography itself, which is the standard library's; the registry of suites, key
-- generation and the X-Wing suite of mls/cipher, which only call it; the tree hashes, TreeKEM and
-- validation of mls/tree; the group engine, and the references and signatures of its messages; the
-- ironcore controller, its credentials and its recovery; the simulator, the commands, the benchmarks
-- and the interoperability server.
pub mod Prelude
pub mod Syntax
pub mod Cipher
pub mod Tree
pub mod KeySchedule
pub mod Group
pub mod Framing
pub mod Ironcore
pub mod Sequencer
