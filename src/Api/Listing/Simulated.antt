-- ===== src/Api/Listing/Simulated.antt =====
-- When `listVaults` of src/api/soroban-client.ts asks the simulate path.
use stellartimelock_core.Common.{ℕ, String, Bool, true, false, ◌≡◌, ◌∙◌, ◌||◌, Option, List, arith}
use stellartimelock_core.Common.Action.{Result, ok, err}
use stellartimelock_core.Common.Int.{ℤ}
use stellartimelock_core.Api.Errors.{Fault}
use stellartimelock_core.Api.Vault.{Platform, Vault, ContractVault}
use stellartimelock_core.Api.Session.{
  Session, is_xdr_parse_error, mark_simulate_broken, push_all-simulate_path,
}
use stellartimelock_core.Api.Listing.{
  Sources, snapshots, list_vaults, report, pick_live, simulate_step,
}

module _ {A : Type 0} (pf : Platform A) (merge : List (Vault A) → List (Vault A) → List (Vault A))
    (day : ℕ → ℕ → ℕ → Option ℤ) (backend : Bool) (owner : String) (now_ms : ℕ) where
  abbrev fails_by_xdr : Result Fault (List ContractVault) → Bool
  fails_by_xdr (ok vs) = false
  fails_by_xdr (err e) = is_xdr_parse_error e

  simulate_step-path :
      (src : Sources A) (s : Session A)
      → (simulate_step pf merge day backend owner now_ms src s).1.simulate_path_broken
        ≡ (s.simulate_path_broken || fails_by_xdr src.simulation)
  unfolding simulate_step mark_simulate_broken
  simulate_step-path src s = ground arith

  pick_live-path :
      (src : Sources A) (simulated : Option (List (Vault A))) (s : Session A)
      → (pick_live pf merge day backend owner now_ms src simulated s).2.simulate_path_broken
        ≡ s.simulate_path_broken
  unfolding pick_live
  pick_live-path src simulated s = ground arith

  -- Once the simulate path is broken it stays so, and `listVaults` neither asks it nor depends on
  -- what it would answer; it breaks just when a simulation that is asked fails with an XDR error.
  simulate_path_sticky :
      (src : Sources A) (s : Session A) (answer : Result Fault (List ContractVault))
      → let listed = list_vaults pf merge day backend owner now_ms in
        (s.simulate_path_broken ≡ true
          → listed (record src { simulation = answer }) s ≡ listed src s)
        × ((listed src s).1.simulate_path_broken
            ≡ (s.simulate_path_broken || fails_by_xdr src.simulation))
  unfolding list_vaults simulate_step pick_live report
  simulate_path_sticky src s answer =
      let (simulated, s1) = simulate_step pf merge day backend owner now_ms src s in
      let (rows, saved, s2) = pick_live pf merge day backend owner now_ms src simulated s1 in
      (
        λ h. ground arith,
        push_all-simulate_path backend (snapshots pf merge day backend owner now_ms src.metas rows)
              s2
            ∙ pick_live-path src simulated s1
            ∙ simulate_step-path src s,
      )
