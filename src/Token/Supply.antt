-- ===== src/Token/Supply.antt =====
-- The sum of the balances of a token against its recorded supply (prisms/token/src/lib.rs).
use veilux_binary.Base.{
  ℕ, ◌+◌, ◌-◌, ◌<◌, ◌≤◌, ◌≡◌, ◌⊎◌, refl, ap, ◌∙◌, true, false, ◌&&◌, some, List, [], ◌∷◌, lit, ok,
  err, arith, u128_mod, checked_add, saturating_add, saturating_add-fits, Bool-cases, inl, inr,
}
use veilux_binary.Base.Order.{same, same_eq, same_refl, same_sym, text_ord}
use veilux_binary.Kernel.Hash.{Crates, Hash}
use veilux_binary.Kernel.Types.{PartyId, Command, contains, IsDistinct}
use veilux_binary.Kernel.State.{StateTree}
use veilux_binary.Kernel.Prism.{unauthorized, single}
use veilux_binary.Token.Types.{TokenMeta, TokenSerde, TokenRoundTrips, minted}
use veilux_binary.Token.Store.{balance, token_meta, credit, debit, move_balance}
use veilux_binary.Token.Keys.{HexLaws}
use veilux_binary.Token.Balances.{
  with_balance, with_meta, set_balance-eq, put_meta-eq, balance-with_balance, balance-with_meta,
  token_meta-with_balance, token_meta-with_meta, balance-bound,
}
use veilux_binary.Token.Effects.{
  with_supply, balance-with_supply, debit-ok, credit-ok, move_balance-ok, token_meta-with_supply,
  move_balance-needs, balance-with_balance_self,
}
use veilux_binary.Token.Transfer.{load_meta-some}
use veilux_binary.Token.Handle.{event, handle_mint}

module _ (x : Crates) (c : TokenSerde) where
  -- The sum of what the parties hold of a token.
  abbrev pub total : List PartyId → Hash → StateTree → ℕ
  total [] id s = 0
  total (p ∷ ps) id s = balance x c id p s + total ps id s

module _ (x : Crates) (laws : HexLaws x) (c : TokenSerde) (r : TokenRoundTrips c) where
  pub total-with_supply :
      (ps : List PartyId) (id : Hash) (f : ℕ → ℕ) (s : StateTree)
      → total x c ps id (with_supply x laws c r id f s) ≡ total x c ps id s
  total-with_supply [] id f s = refl
  total-with_supply (p ∷ ps) id f s =
      omega (arith, balance-with_supply x laws c r id id p f s, total-with_supply ps id f s)

  total-with_meta :
      (ps : List PartyId) (id : Hash) (m : TokenMeta) (s : StateTree)
      → total x c ps id (with_meta x laws c r id m s) ≡ total x c ps id s
  total-with_meta [] id m s = refl
  total-with_meta (p ∷ ps) id m s =
      omega (arith, balance-with_meta x laws c r id id p m s, total-with_meta ps id m s)

  -- A balance outside the list does not count.
  total-with_balance_absent :
      (ps : List PartyId) (id : Hash) (who : PartyId) (v : ℕ) (s : StateTree)
      → v < u128_mod
      → contains ps who ≡ false
      → total x c ps id (with_balance x laws c r id who v s) ≡ total x c ps id s
  unfolding contains
  total-with_balance_absent [] id who v s h a = refl
  total-with_balance_absent (p ∷ ps) id who v s h a = ground (
    arith,
    balance-with_balance x laws c r id id who p v s h,
    total-with_balance_absent ps id who v s h,
    same_sym p who,
  )

  -- A new balance in the list changes the sum by its change.
  pub total-with_balance :
      (ps : List PartyId) (id : Hash) (who : PartyId) (v : ℕ) (s : StateTree)
      → v < u128_mod
      → IsDistinct ps
      → contains ps who ≡ true
      → total x c ps id (with_balance x laws c r id who v s) + balance x c id who s
        ≡ total x c ps id s + v
  unfolding contains
  total-with_balance [] id who v s h d a = cc
  total-with_balance (p ∷ ps) id who v s h d a = elim (Bool-cases (same p who)) [
    | inl here ↦
        let e = same_eq p who here in
        let missing : contains ps who ≡ false = rw (← e) d.0 in
        ground (
          arith,
          e,
          ap (λ q. balance x c id q s) e,
          balance-with_balance x laws c r id id who p v s h,
          total-with_balance_absent ps id who v s h missing,
          same_refl id,
        )
    | inr there ↦ ground (
      arith,
      same_sym p who,
      balance-with_balance x laws c r id id who p v s h,
      total-with_balance ps id who v s h d.1,
    )
  ]

  handle_mint-ok :
      (cmd : Command) (id : Hash) (to : PartyId) (amount : ℕ) (m : TokenMeta) (s : StateTree)
      → token_meta x c id s ≡ some m
      → m.mintable ≡ true
      → same m.owner cmd.submitter ≡ true
      → balance x c id to s + amount < u128_mod
      → m.total_supply + amount < u128_mod
      → handle_mint x c cmd id to amount s ≡ (
        ok (single (event x c cmd (minted id to amount)) 2000),
        with_meta x laws c r id
            (record m { total_supply = m.total_supply + amount })
            (with_balance x laws c r id to (balance x c id to s + amount) s),
      )
  unfolding handle_mint checked_add
  handle_mint-ok cmd id to amount m s known mintable owner fits supply = ground (
    arith,
    load_meta-some x c id m s known,
    set_balance-eq x laws c r id to (balance x c id to s + amount) s,
    put_meta-eq x laws c r id (record m { total_supply = m.total_supply + amount })
        (with_balance x laws c r id to (balance x c id to s + amount) s),
  )

  -- A successful `move_balance` conserves the sum of the balances of any distinct parties among
  -- which both sides are, also from a party to itself, and the metadata.
  pub move_balance_conserves :
      (ps : List PartyId) (id : Hash) (from to : PartyId) (amount : ℕ) (s : StateTree)
      → IsDistinct ps
      → contains ps from ≡ true
      → contains ps to ≡ true
      → (move_balance x c id from to amount s).0 ≡ ok tt
      → (total x c ps id (move_balance x c id from to amount s).1 ≡ total x c ps id s)
        × (token_meta x c id (move_balance x c id from to amount s).1 ≡ token_meta x c id s)
  move_balance_conserves ps id from to amount s d hf ht e =
      let needs = move_balance-needs x laws c r id from to amount s e in
      let s' = with_balance x laws c r id from (balance x c id from s - amount) s in
      rw (move_balance-ok x laws c r id from to amount s needs.0 needs.1) (
        omega (
          arith,
          needs.0,
          balance-bound x c id from s,
          total-with_balance ps id from (balance x c id from s - amount) s
              (omega (arith, balance-bound x c id from s)) d hf,
          total-with_balance ps id to (balance x c id to s' + amount) s' needs.1 d ht,
        ),
        token_meta-with_balance x laws c r id id to _ s'
            ∙ token_meta-with_balance x laws c r id id from _ s,
      )

  -- A debit and a credit of the same amount, as when a prism takes a deposit and pays it out,
  -- conserve the sum of the balances but raise the recorded supply by the amount, within a `u128`.
  pub debit_then_credit :
      (ps : List PartyId) (id : Hash) (from to : PartyId) (amount : ℕ) (m : TokenMeta)
      (s : StateTree)
      → IsDistinct ps
      → contains ps from ≡ true
      → contains ps to ≡ true
      → token_meta x c id s ≡ some m
      → m.total_supply + amount < u128_mod
      → amount ≤ balance x c id from s
      → let s' = (debit x c id from amount s).1 in
        balance x c id to s' + amount < u128_mod
        → let s'' = (credit x c id to amount s').1 in
          (total x c ps id s'' ≡ total x c ps id s)
          × (token_meta x c id s'' ≡ some (record m { total_supply = m.total_supply + amount }))
  debit_then_credit ps id from to amount m s d hf ht known supply cover fits =
      let s' = with_balance x laws c r id from (balance x c id from s - amount) s in
      let paid = debit-ok x laws c r id from amount s cover in
      let fits' : balance x c id to s' + amount < u128_mod = rw paid at fits in
      let s'' = with_balance x laws c r id to (balance x c id to s' + amount) s' in
      let bound : balance x c id from s - amount < u128_mod =
        omega (arith, balance-bound x c id from s) in
      rw paid (
        rw (credit-ok x laws c r id to amount s' fits') (
          omega (
            arith,
            total-with_supply ps id (λ (n : ℕ). saturating_add n amount) s'',
            total-with_balance ps id from (balance x c id from s - amount) s bound d hf,
            total-with_balance ps id to (balance x c id to s' + amount) s' fits' d ht,
          ),
          token_meta-with_supply x laws c r id (λ n. saturating_add n amount) m s''
                (token_meta-with_balance x laws c r id id to _ s'
                  ∙ (token_meta-with_balance x laws c r id id from _ s ∙ known))
              ∙ ap (λ n. some (record m { total_supply = n }))
                  (saturating_add-fits m.total_supply amount supply),
        ))

  -- A mint by the owner of a mintable token, within a `u128`, raises the receiver's balance, the
  -- sum of the balances and the recorded supply by the amount.
  pub handle_mint_raises :
      (ps : List PartyId) (cmd : Command) (id : Hash) (to : PartyId) (amount : ℕ) (m : TokenMeta)
      (s : StateTree)
      → IsDistinct ps
      → contains ps to ≡ true
      → token_meta x c id s ≡ some m
      → m.mintable ≡ true
      → same m.owner cmd.submitter ≡ true
      → balance x c id to s + amount < u128_mod
      → m.total_supply + amount < u128_mod
      → let (result, s') = handle_mint x c cmd id to amount s in
        (result ≡ ok (single (event x c cmd (minted id to amount)) 2000))
        × (balance x c id to s' ≡ balance x c id to s + amount)
        × (total x c ps id s' ≡ total x c ps id s + amount)
        × (token_meta x c id s' ≡ some (record m { total_supply = m.total_supply + amount }))
  handle_mint_raises ps cmd id to amount m s d ht known mintable owner fits supply =
      let new_meta : TokenMeta = record m { total_supply = m.total_supply + amount } in
      let s' = with_balance x laws c r id to (balance x c id to s + amount) s in
      rw (handle_mint-ok cmd id to amount m s known mintable owner fits supply) (
        refl,
        balance-with_meta x laws c r id id to new_meta s'
            ∙ balance-with_balance_self x laws c r id to (balance x c id to s + amount) s fits,
        omega (
          arith,
          total-with_meta ps id new_meta s',
          total-with_balance ps id to (balance x c id to s + amount) s fits d ht,
        ),
        token_meta-with_meta x laws c r id new_meta s',
      )

  -- Only the owner of a mintable token mints: any other command fails and changes nothing.
  pub handle_mint_unauthorized :
      (cmd : Command) (id : Hash) (to : PartyId) (amount : ℕ) (m : TokenMeta) (s : StateTree)
      → token_meta x c id s ≡ some m
      → (m.mintable && same m.owner cmd.submitter) ≡ false
      → (handle_mint x c cmd id to amount s ≡ (err (unauthorized (lit "token not mintable")), s))
        ⊎ (handle_mint x c cmd id to amount s ≡ (err (unauthorized (lit "only owner can mint")), s))
  unfolding handle_mint
  handle_mint_unauthorized cmd id to amount m s known h = elim (Bool-cases m.mintable) [
    | inl yes_ ↦ inr (ground (arith, load_meta-some x c id m s known))
    | inr no_ ↦ inl (ground (arith, load_meta-some x c id m s known))
  ]
