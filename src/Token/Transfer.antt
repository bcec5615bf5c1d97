-- ===== src/Token/Transfer.antt =====
-- Transfers (prisms/token/src/lib.rs).
use veilux_binary.Base.{
  ℕ, ◌+◌, ◌-◌, ◌<◌, ◌≤◌, ◌≡◌, refl, ◌∙◌, false, ◌&&◌, some, lit, ok, err, arith, if◌then◌else◌,
  u128_mod, checked_add,
}
use veilux_binary.Base.Order.{same, same_refl, text_ord}
use veilux_binary.Kernel.Hash.{Crates, Hash}
use veilux_binary.Kernel.Types.{PartyId, Command}
use veilux_binary.Kernel.State.{StateTree}
use veilux_binary.Kernel.Prism.{limit_exceeded, unauthorized, or_internal, single}
use veilux_binary.Token.Types.{TokenMeta, TokenSerde, TokenRoundTrips, transferred}
use veilux_binary.Token.Store.{balance, allowance, load_meta, token_meta, ok_flatten}
use veilux_binary.Token.Keys.{HexLaws}
use veilux_binary.Token.Balances.{
  with_balance, with_allowance, set_balance-eq, set_allowance-eq, balance-with_balance,
  token_meta-with_balance, balance-bound, allowance-bound, balance-with_allowance,
  allowance-with_allowance,
}
use veilux_binary.Token.Handle.{event, handle_transfer, handle_transfer_from}

module _ (x : Crates) (c : TokenSerde) where
  pub load_meta-some :
      (id : Hash) (m : TokenMeta) (s : StateTree)
      → token_meta x c id s ≡ some m
      → load_meta x c id s ≡ (ok m, s)
  unfolding load_meta token_meta ok_flatten or_internal
  load_meta-some id m s h = ground arith

module _ (x : Crates) (laws : HexLaws x) (c : TokenSerde) (r : TokenRoundTrips c) where
  -- The state after a transfer: both balances were read before either was written.
  transferred_state : Hash → PartyId → PartyId → ℕ → StateTree → StateTree
  transferred_state id from to amount s =
      with_balance x laws c r id to (balance x c id to s + amount)
        (with_balance x laws c r id from (balance x c id from s - amount) s)

  balance-transferred_state :
      (id : Hash) (from to : PartyId) (amount : ℕ) (s : StateTree) (id' : Hash) (who : PartyId)
      → balance x c id to s + amount < u128_mod
      → balance x c id' who (transferred_state id from to amount s) ≡ (
          if same id' id && same who to
          then balance x c id to s + amount
          else (if same id' id && same who from
              then balance x c id from s - amount
              else balance x c id' who s))
  unfolding transferred_state
  balance-transferred_state id from to amount s id' who fits =
      let s' = with_balance x laws c r id from (balance x c id from s - amount) s in
      ground (
        arith,
        balance-with_balance x laws c r id id' to who (balance x c id to s + amount) s' fits,
        balance-with_balance x laws c r id id' from who (balance x c id from s - amount) s,
        balance-bound x c id from s,
      )

  token_meta-transferred_state :
      (id : Hash) (from to : PartyId) (amount : ℕ) (s : StateTree) (id' : Hash)
      → token_meta x c id' (transferred_state id from to amount s) ≡ token_meta x c id' s
  unfolding transferred_state
  token_meta-transferred_state id from to amount s id' =
      token_meta-with_balance x laws c r id' id to _ _
      ∙ token_meta-with_balance x laws c r id' id from _ s

  handle_transfer-ok :
      (cmd : Command) (id : Hash) (to : PartyId) (amount : ℕ) (m : TokenMeta) (s : StateTree)
      → token_meta x c id s ≡ some m
      → amount ≤ balance x c id cmd.submitter s
      → balance x c id to s + amount < u128_mod
      → handle_transfer x c cmd id to amount s ≡ (
        ok (single (event x c cmd (transferred id cmd.submitter to amount)) 1000),
        transferred_state id cmd.submitter to amount s,
      )
  unfolding handle_transfer transferred_state checked_add
  handle_transfer-ok cmd id to amount m s known cover fits =
      let s' =
        with_balance x laws c r id cmd.submitter (balance x c id cmd.submitter s - amount) s in
      ground (
        arith,
        load_meta-some x c id m s known,
        set_balance-eq x laws c r id cmd.submitter (balance x c id cmd.submitter s - amount) s,
        set_balance-eq x laws c r id to (balance x c id to s + amount) s',
      )

  -- A transfer between two parties of a known token, covered by the sender's balance and within a
  -- `u128` at the receiver, succeeds: the amount leaves the one and reaches the other, no other
  -- balance of any token changes, and neither does the metadata of any token.
  pub handle_transfer_moves :
      (cmd : Command) (id : Hash) (to : PartyId) (amount : ℕ) (m : TokenMeta) (s : StateTree)
      → token_meta x c id s ≡ some m
      → amount ≤ balance x c id cmd.submitter s
      → balance x c id to s + amount < u128_mod
      → same cmd.submitter to ≡ false
      → let (result, s') = handle_transfer x c cmd id to amount s in
        (result ≡ ok (single (event x c cmd (transferred id cmd.submitter to amount)) 1000))
        × (balance x c id cmd.submitter s' + amount ≡ balance x c id cmd.submitter s)
        × (balance x c id to s' ≡ balance x c id to s + amount)
        × ((id' : Hash) (who : PartyId)
            → (same id' id && same who cmd.submitter) ≡ false
            → (same id' id && same who to) ≡ false
            → balance x c id' who s' ≡ balance x c id' who s)
        × ((id' : Hash) → token_meta x c id' s' ≡ token_meta x c id' s)
  handle_transfer_moves cmd id to amount m s known cover fits ne =
      rw (handle_transfer-ok cmd id to amount m s known cover fits) (
        refl,
        ground (
          arith,
          balance-transferred_state id from to amount s id from fits,
          same_refl id,
          same_refl from,
        ),
        ground (
          arith,
          balance-transferred_state id from to amount s id to fits,
          same_refl id,
          same_refl to,
        ),
        λ id' who not_from not_to.
            ground (arith, balance-transferred_state id from to amount s id' who fits),
        token_meta-transferred_state id from to amount s,
      )
    where
      open cmd use {submitter as from}

  -- A transfer by a party to itself adds the amount to its balance: the balance that the second
  -- write starts from was read before the first.
  pub handle_transfer_to_self :
      (cmd : Command) (id : Hash) (amount : ℕ) (m : TokenMeta) (s : StateTree)
      → token_meta x c id s ≡ some m
      → amount ≤ balance x c id cmd.submitter s
      → balance x c id cmd.submitter s + amount < u128_mod
      → let s' = (handle_transfer x c cmd id cmd.submitter amount s).1 in
        (balance x c id cmd.submitter s' ≡ balance x c id cmd.submitter s + amount)
        × (token_meta x c id s' ≡ some m)
  handle_transfer_to_self cmd id amount m s known cover fits =
      rw (handle_transfer-ok cmd id from amount m s known cover fits) (
        ground (
          arith,
          balance-transferred_state id from from amount s id from fits,
          same_refl id,
          same_refl from,
        ),
        token_meta-transferred_state id from from amount s id ∙ known,
      )
    where
      open cmd use {submitter as from}

  -- A transfer is refused, and changes nothing, when the sender's balance does not cover it.
  pub handle_transfer_overdraft :
      (cmd : Command) (id : Hash) (to : PartyId) (amount : ℕ) (m : TokenMeta) (s : StateTree)
      → token_meta x c id s ≡ some m
      → balance x c id cmd.submitter s < amount
      → handle_transfer x c cmd id to amount s
        ≡ (err (limit_exceeded (lit "insufficient balance")), s)
  unfolding handle_transfer
  handle_transfer_overdraft cmd id to amount m s known short =
      ground (arith, load_meta-some x c id m s known)

  -- The state after a delegated transfer: the balances move and the allowance is used up by the
  -- amount.
  handle_transfer_from-ok :
      (cmd : Command) (id : Hash) (from to : PartyId) (amount : ℕ) (m : TokenMeta) (s : StateTree)
      → token_meta x c id s ≡ some m
      → amount ≤ allowance x c id from cmd.submitter s
      → amount ≤ balance x c id from s
      → balance x c id to s + amount < u128_mod
      → handle_transfer_from x c cmd id from to amount s ≡ (
        ok (single (event x c cmd (transferred id from to amount)) 1200),
        with_allowance x laws c r id from cmd.submitter
            (allowance x c id from cmd.submitter s - amount)
            (transferred_state id from to amount s),
      )
  unfolding handle_transfer_from transferred_state checked_add
  handle_transfer_from-ok cmd id from to amount m s known allowed cover fits =
      let s' = with_balance x laws c r id from (balance x c id from s - amount) s in
      let s'' = with_balance x laws c r id to (balance x c id to s + amount) s' in
      ground (
        arith,
        load_meta-some x c id m s known,
        set_balance-eq x laws c r id from (balance x c id from s - amount) s,
        set_balance-eq x laws c r id to (balance x c id to s + amount) s',
        set_allowance-eq x laws c r id from cmd.submitter
            (allowance x c id from cmd.submitter s - amount) s'',
      )

  -- A delegated transfer between two parties, within the allowance and the balance, moves the
  -- amount and takes it off the allowance; no other balance of any token changes.
  pub handle_transfer_from_moves :
      (cmd : Command) (id : Hash) (from to : PartyId) (amount : ℕ) (m : TokenMeta) (s : StateTree)
      → token_meta x c id s ≡ some m
      → amount ≤ allowance x c id from cmd.submitter s
      → amount ≤ balance x c id from s
      → balance x c id to s + amount < u128_mod
      → same from to ≡ false
      → let (result, s') = handle_transfer_from x c cmd id from to amount s in
        (result ≡ ok (single (event x c cmd (transferred id from to amount)) 1200))
        × (balance x c id from s' + amount ≡ balance x c id from s)
        × (balance x c id to s' ≡ balance x c id to s + amount)
        × (allowance x c id from cmd.submitter s' + amount ≡ allowance x c id from cmd.submitter s)
        × ((id' : Hash) (who : PartyId)
            → (same id' id && same who from) ≡ false
            → (same id' id && same who to) ≡ false
            → balance x c id' who s' ≡ balance x c id' who s)
  handle_transfer_from_moves cmd id from to amount m s known allowed cover fits ne =
      let left = allowance x c id from cmd.submitter s - amount in
      let s' = transferred_state id from to amount s in
      rw (handle_transfer_from-ok cmd id from to amount m s known allowed cover fits) (
        refl,
        ground (
          arith,
          balance-with_allowance x laws c r id id from from cmd.submitter left s',
          balance-transferred_state id from to amount s id from fits,
          same_refl id,
          same_refl from,
        ),
        ground (
          arith,
          balance-with_allowance x laws c r id id to from cmd.submitter left s',
          balance-transferred_state id from to amount s id to fits,
          same_refl id,
          same_refl to,
        ),
        ground (
          arith,
          allowance-with_allowance x laws c r id from cmd.submitter left s',
          allowance-bound x c id from cmd.submitter s,
        ),
        λ id' who not_from not_to. ground (
          arith,
          balance-with_allowance x laws c r id' id who from cmd.submitter left s',
          balance-transferred_state id from to amount s id' who fits,
        ),
      )

  -- A delegated transfer beyond the allowance is refused and changes nothing.
  pub handle_transfer_from_unauthorized :
      (cmd : Command) (id : Hash) (from to : PartyId) (amount : ℕ) (m : TokenMeta) (s : StateTree)
      → token_meta x c id s ≡ some m
      → allowance x c id from cmd.submitter s < amount
      → handle_transfer_from x c cmd id from to amount s
        ≡ (err (unauthorized (lit "allowance exceeded")), s)
  unfolding handle_transfer_from
  handle_transfer_from_unauthorized cmd id from to amount m s known short =
      ground (arith, load_meta-some x c id m s known)
