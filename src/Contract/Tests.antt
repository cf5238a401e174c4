-- ===== src/Contract/Tests.antt =====
-- A vault of contracts/xlm_vault/src/lib.rs from its making to its withdrawal, on a token whose
-- ledger is a function.
use stellartimelock_core.Common.{
  ℕ, ◌+◌, ◌-◌, ◌≤◌, ◌≡◌, ◌≢◌, refl, sym, ap, ◌∙◌, inl, inr, Bool-cases, Bool, true, false, Option,
  none, some, [], str_eq, str_eq_iff, str_eq_refl, leb, arith, if◌then◌else◌,
}
use stellartimelock_core.Common.Action.{ok}
use stellartimelock_core.Common.Int.{ℤ, pos, negsuc, ◌+ℤ◌, ◌-ℤ◌}
use stellartimelock_core.Contract
use stellartimelock_core.Contract.Host.{
  Address, Vault, Chain, Token, IsLawful, checked_u64, checked_i128,
}
use stellartimelock_core.Contract.Effects.{Effect, new_id, after_withdraw}
use stellartimelock_core.Contract.Call.{Call, init, create_vault, deposit, withdraw}
use stellartimelock_core.Contract.Calls.{attempt, perform}
use stellartimelock_core.Contract.Calls.Effective.{perform-Effect}
use stellartimelock_core.Contract.Steps.{called, passed, Reach, here, next, IsNew}
use stellartimelock_core.Contract.Solvent.{IsSound, Reach-IsSound, some_inj, none-ne-some}
use stellartimelock_core.Contract.Locked.{Kept, Reach-Kept}
use stellartimelock_core.Contract.Paid.{Pays, perform-Pays}
use stellartimelock_core.Contract.Due.{NeverRefuses, withdraw-Pays}
use stellartimelock_core.Contract.Owned.{ids_of, list_owned_ids}
use stellartimelock_core.Contract.Status.{read, refusal, announced, withdraw-status_for}
use stellartimelock_core.Api.Vault.{status_for}
use stellartimelock_core.Api.Vault.{Platform}

abbrev pub Coins : Type 0
Coins = Address → ℕ

abbrev paid_to : Address → Address → ℕ → Coins → Coins
paid_to from to n l who =
    if str_eq who to then l to + n else if str_eq who from then l from - n else l who

abbrev send : Address → Address → ℤ → Coins → Option Coins
send from to (negsuc n) l = none
send from to (pos n) l = if leb n (l from) then some (paid_to from to n l) else none

abbrev pub coins : Token Coins
coins = record {
  balance = λ asset l who. pos (l who);
  transfer = λ asset from to amount l. send from to amount l;
}

moves :
    (from to : Address) (amount : ℤ) (l l' : Coins)
    → from ≢ to
    → send from to amount l ≡ some l'
    → (pos (l' from) ≡ pos (l from) -ℤ amount) × (pos (l' to) ≡ pos (l to) +ℤ amount)
unfolding ◌+ℤ◌ ◌-ℤ◌
moves from to (negsuc n) l l' apart h = absurd (cc h)
moves from to (pos n) l l' apart h = elim (Bool-cases (leb n (l from))) [
  | inl enough ↦
      let e : paid_to from to n l ≡ l' = some_inj (rw enough at h) in
      let differ : str_eq from to ≡ false = ground (arith, str_eq_iff from to) in
      let at_from : l' from ≡ l from - n =
        ap (λ m. m from) (sym e) ∙ rw (differ, str_eq_refl from) refl in
      let at_to : l' to ≡ l to + n = ap (λ m. m to) (sym e) ∙ rw (str_eq_refl to) refl in
      (rw at_from (ground arith), rw at_to (ground arith))
  | inr short ↦ absurd (none-ne-some (rw short at h))
]

pub coins-IsLawful : IsLawful coins
coins-IsLawful = record {
  not_negative = λ asset l who. omega arith;
  moves = λ asset from to amount l l' apart h. moves from to amount l l' apart h;
}

coins_never_refused : NeverRefuses coins "vault"
coins_never_refused asset who (pos n) l some_at_least enough =
    let fits : leb n (l "vault") ≡ true = ground arith in (paid_to "vault" who n l, rw fits refl)
coins_never_refused asset who (negsuc n) l some_at_least enough = absurd (omega arith)

abbrev pub empty_chain : Chain Coins
empty_chain = record {
  token = none;
  next_id = none;
  vaults = λ id. none;
  owned = λ who. none;
  ledger = λ who. 100;
  now = 50;
  events = [];
}

pub empty_chain-IsNew : IsNew empty_chain
empty_chain-IsNew = record {
  no_token = refl;
  no_id = refl;
  no_vault = λ id. refl;
  no_index = λ who. refl;
  no_event = refl;
}

abbrev pub alice_only : Address → Bool
alice_only who = str_eq who "alice"

abbrev pub alice_calls : Call → Chain Coins → Chain Coins
alice_calls call c = perform coins "vault" alice_only call c

abbrev pub rent : Vault
rent = record {
  vault_id = 0;
  owner = "alice";
  name = "Rent";
  balance = pos 30;
  unlock_timestamp = 80;
  created_timestamp = 50;
  withdrawn = false;
}

abbrev pub made : Chain Coins
made = alice_calls (create_vault "alice" "Rent" (pos 30) 80) (alice_calls (init "xlm") empty_chain)

abbrev pub filled : Chain Coins
filled = alice_calls (deposit "alice" 0 (pos 5)) made

abbrev due : Chain Coins
due = record filled { now = 80 }

abbrev over : Chain Coins
over = alice_calls (withdraw "alice" 0) due

pub made_reached : Reach coins "vault" empty_chain made
made_reached = next (next here (called alice_only _ refl)) (called alice_only _ refl)

pub filled_reached : Reach coins "vault" empty_chain filled
filled_reached = next made_reached (called alice_only _ refl)

due_reached : Reach coins "vault" empty_chain due
unfolding perform attempt Contract.init Contract.create_vault Contract.deposit checked_u64
    checked_i128 ◌+ℤ◌
due_reached = next filled_reached (passed 80 (omega arith))

over_since_made : Reach coins "vault" made over
unfolding perform attempt Contract.init Contract.create_vault Contract.deposit checked_u64
    checked_i128 ◌+ℤ◌
over_since_made =
    let later : filled.now ≤ 80 = omega arith in
    next (next (next here (called alice_only (deposit "alice" 0 (pos 5)) refl)) (passed 80 later))
      (called alice_only (withdraw "alice" 0) refl)

Reach-IsSound_example : IsSound coins "vault" due
Reach-IsSound_example =
    Reach-IsSound coins "vault" coins-IsLawful empty_chain due empty_chain-IsNew due_reached

pub made_vault : made.vaults 0 ≡ some rent
unfolding perform attempt Contract.init Contract.create_vault checked_u64
made_vault = refl

Reach-Kept_example : Kept 0 rent over.vaults over.now
Reach-Kept_example =
    Reach-Kept coins "vault" coins-IsLawful empty_chain made over empty_chain-IsNew made_reached
      over_since_made 0 rent made_vault

abbrev full_rent : Vault
full_rent = record rent { balance = pos 35 }

due_vault : due.vaults 0 ≡ some full_rent
unfolding perform attempt Contract.init Contract.create_vault Contract.deposit checked_u64
    checked_i128 ◌+ℤ◌
due_vault = refl

due_token : due.token ≡ some "xlm"
unfolding perform attempt Contract.init Contract.create_vault Contract.deposit checked_u64
    checked_i128 ◌+ℤ◌
due_token = refl

due_time : due.now ≡ 80
due_time = refl

perform-Pays_example :
    Pays coins "vault" alice_only "xlm" due
      (perform coins "vault" alice_only (withdraw "alice" 0) due)
perform-Pays_example =
    perform-Pays coins "vault" alice_only coins-IsLawful refl "xlm" (withdraw "alice" 0) due
      due_token

withdraw-Pays_example :
    (asset : Address) × (ledger : Coins) × (due.token ≡ some asset)
    × (coins.transfer asset "vault" "alice" (pos 35) due.ledger ≡ some ledger)
    × (Contract.withdraw coins "vault" alice_only "alice" 0 due
        ≡ (ok (pos 35), after_withdraw "alice" 0 full_rent ledger due))
withdraw-Pays_example =
    withdraw-Pays coins "vault" coins-IsLawful coins_never_refused alice_only empty_chain due
      empty_chain-IsNew due_reached 0 full_rent due_vault refl (omega arith) refl

list_owned_ids_example :
    Contract.list_owned coins "vault" "alice" due
    ≡ (ok (ids_of due.vaults "alice" (new_id due)), due)
list_owned_ids_example =
    list_owned_ids coins "vault" coins-IsLawful empty_chain due empty_chain-IsNew due_reached
      "alice"

abbrev stroops : Platform ℕ
stroops = record {
  zero_xlm = 0;
  add = λ a b. a + b;
  is_positive = λ a. true;
  of_stroops = λ n. 5;
  date_parse = λ s. none;
}

withdraw-status_for_example :
    refusal (Contract.withdraw coins "vault" alice_only "alice" 0 made)
    ≡ announced (status_for stroops (read rent) (pos made.now))
withdraw-status_for_example =
    withdraw-status_for coins "vault" alice_only stroops 0 rent made refl made_vault

perform-Effect_example :
    Effect coins "vault" alice_only made
      (withdraw "alice" 0)
      (perform coins "vault" alice_only (withdraw "alice" 0) made)
perform-Effect_example = perform-Effect coins "vault" alice_only (withdraw "alice" 0) made
