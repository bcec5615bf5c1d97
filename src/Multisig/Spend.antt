-- ===== src/Multisig/Spend.antt =====
-- Whose command a multisig account can have executed (prisms/multisig/src/lib.rs,
-- kernel/src/cascade.rs).
use veilux_binary.Base.{◌+◌, ◌%◌, ◌≡◌, true, some, [], ◌∷◌, ok, arith, u64_mod}
use veilux_binary.Base.Order.{text_ord}
use veilux_binary.Base.Map.{get}
use veilux_binary.Kernel.Hash.{Crates, Hash}
use veilux_binary.Kernel.Types.{Command, contains}
use veilux_binary.Kernel.State.{StateTree}
use veilux_binary.Kernel.Prism.{Prism, PrismOutput}
use veilux_binary.Kernel.Cascade.{Cascade, apply, run_rounds, run_frontier, run_command, add_output}
use veilux_binary.Kernel.Cascade as Pipeline
use veilux_binary.Multisig.Types.{
  MultisigAccount, MultisigSerde, MultisigRoundTrips, propose, was_proposed, was_executed,
}
use veilux_binary.Multisig.Handle.{multisig_prism, handle, dispatch, account_id, event}
use veilux_binary.Multisig.Accounts.{proposed, handle_propose-eq}

module _ (x : Crates) (c : MultisigSerde) (r : MultisigRoundTrips c) where
  -- Who submits the inner command is not checked: where the threshold of an account is one, an
  -- owner's proposal has any prism execute any command in the name of any party, and the command
  -- ends in the state that the prism leaves; the proposal is read as written, and the inner
  -- command succeeds and derives nothing more.
  pub apply-any_submitter :
      (net : Cascade) (prism : Prism) (cmd inner : Command) (id : Hash) (acc : MultisigAccount)
      (s s' : StateTree) (out : PrismOutput)
      → get cmd.prism net.prisms ≡ some (multisig_prism x c)
      → get inner.prism net.prisms ≡ some prism
      → c.command.from_slice cmd.payload ≡ ok (propose id inner)
      → account_id x c s id ≡ some acc
      → contains acc.owners cmd.submitter ≡ true
      → acc.threshold ≡ 1
      → prism.handle inner (proposed x c r id acc cmd.submitter inner s) ≡ (ok out, s')
      → out.derived_commands ≡ []
      → apply net cmd s ≡ (
        ok (record {
          events =
              event x c cmd (was_proposed id acc.nonce cmd.submitter)
              ∷ event x c cmd (was_executed id acc.nonce)
              ∷ out.events;
          total_cost = (3000 + out.cost) % u64_mod;
          depth = 2;
        }),
        s',
      )
  unfolding apply run_rounds run_frontier run_command add_output Pipeline.handle multisig_prism
      handle dispatch
  apply-any_submitter net prism cmd inner id acc s s' out here there read known owner one ends
        last =
      ground (arith, handle_propose-eq x c r cmd id inner acc s known owner)
