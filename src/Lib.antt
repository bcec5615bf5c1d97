-- ===== src/Lib.antt =====
-- Veilux: a chain whose state is one content-addressed tree and whose commands run through
-- pluggable prisms.
--
-- The parts and the files. A command names a prism; the cascade (kernel/src/cascade.rs) looks it up,
-- runs its handler on the state tree (kernel/src/state.rs) and then the commands that the handler
-- derives. Prisms keep their data under string keys as JSON. The prisms vesting and dex hold tokens
-- by calling the helpers of the token prism. Blocks are agreed on by stake-weighted votes.
--   Base        helpers: text as lists of bytes, results and state-passing actions with do blocks,
--               Rust's ordered maps as sorted association lists, the checked, saturating and
--               wrapping arithmetic of u64 and u128, the decimal text of a u128.
--   Kernel      kernel/src: Hash and Merkle are crypto.rs, Types is types.rs, Serde stands for the
--               crate serde_json, State is state.rs, Prism is prism.rs (the trait as a record of
--               operations) and Cascade is cascade.rs. Collision says when two hashes clash,
--               the modules Binding what Merkle and state roots bind, and Cascade.Runs and Queue read a
--               cascade as one queue of commands.
--   Token       prisms/token/src/lib.rs: Types the data, Store the keys, balances and the helpers
--               that other prisms call, Handle the commands, one function for each arm of `handle`.
--   Vesting     prisms/vesting/src/lib.rs: Schedule the data and the curve, Handle the commands.
--   Dex         prisms/dex/src/lib.rs: Math the arithmetic, Pool the data, Handle the commands.
--   Consensus   consensus/src: Validators is validator.rs, Votes is vote.rs, Engine is lib.rs and the
--               check of a signature in veil/src/identity.rs.
--   Multisig    prisms/multisig/src/lib.rs: Types the data, Handle the commands, then what owners
--               do to a pending transaction (Votes, Once), accounts, and whose command is executed.
--   Bridge      prisms/bridge/src: Types is types.rs and the data of lib.rs, Quorum the check of the
--               guardians, Handle the commands, then redemptions and their replay.
--   Oracle      prisms/oracle/src/lib.rs: Types the data, Handle the commands, then who stands behind
--               the value of a feed (Report).
--   Contract    prisms/contract/src: Vm is vm.rs with the stack's top as the head of a list, Types
--               and Handle are lib.rs. The storage is a `HashMap`, written in its iteration order:
--               its contents are a map here, and the codec that writes them takes the random seed of
--               the `HashMap`, so that the bytes may differ from run to run.
--   Evm         evm/src: Rlp is rlp.rs, U256 is u256.rs (a word as its four limbs, the lowest first),
--               Bytes the big-endian reading that both share.
--   Light       lightclient/src/lib.rs: headers and proofs, what a chain of headers is and what its
--               last hash binds.
--   Tests       concrete instances and runs.
--
-- How code becomes definitions. A method with `&mut StateTree` is an `Action`: it takes the state
-- and returns a result with the new state, so that the writes before an error stay, as in the
-- source. `?` is the bind of a do block. Amounts are native numbers; a u128 or u64 operation that
-- checks, saturates or wraps (the release build) is written with its limit. In the exchange a
-- division by zero is the outcome `panic`.
--
-- Parameters. The crates blake3 and hex (`Crates`) and serde_json (`Serde`) are parameters. The
-- laws assumed of them are that hex text holds only digits and is one text for each hash
-- (`HexLaws`) and that what is stored is written without an error and reads back (`RoundTrips`).
-- The crate ed25519-dalek is the parameter `Ed25519`, of which no law is assumed.
-- That BLAKE3 gives 32 bytes is a hypothesis where it is used, and where hashes bind what they
-- commit to, the result is that or a pair of texts with one hash (`Collision`).
--
-- Fuel. The Merkle loops run on as many rounds as there are leaves, and each round leaves at most
-- half, rounded up, until one node is left. The Newton loop runs on n + 1 rounds and falls at each.
-- A cascade has the eight rounds that the source allows. The decimal text of a u128 is computed on
-- 39 digits, since 2 ^ 128 is below 10 ^ 39. A run of the contract machine has two rounds more than
-- its gas limit, and every instruction takes at least one unit; decoding RLP has two rounds for each
-- byte and two more, and every call takes a byte or goes into a shorter body. Running out of rounds
-- is an outcome of its own there (`unfinished`).
--
-- Not modelled: the impls for display and serde and the builders of commands for clients; the
-- prisms for staking, NFTs, names, storage, AI and confidential amounts; the EVM's
-- interpreter, precompiles and curve; the views of veil; the network, the store, the node and the
-- RPC, which are input and output around the parts above. See the manifest.
pub mod Base
pub mod Kernel
pub mod Token
pub mod Vesting
pub mod Dex
pub mod Consensus
pub mod Contract
pub mod Evm
pub mod Light
pub mod Multisig
pub mod Bridge
pub mod Oracle
mod Tests
