-- ===== src/Admin/Liquidity/Again.antt =====
-- What the page of the liquidity shows after a settlement.
use reference_wallet.Base.{◌≡◌, refl, false, List, [], ◌∷◌, map, String}
use reference_wallet.Admin.Liquidity.{
  Debt, Pending, Liquidity, listed, done, thrown, press, settled, run,
}

-- When the debts were settled and the list that is fetched afterwards fails, the page shows the settled
-- debts as before, and a second press asks to settle all of them again.
failed_listing_settles_again :
    (s : Liquidity) (c d : String)
    → let ids = map (λ (x : Debt). x.debt_id) s.debt in
      let again = run s (press c ∷ settled 0 done ∷ settled 0 thrown ∷ press d ∷ []) in
      (again.debt ≡ s.debt) × (again.asked ≡ (ids, d) ∷ (ids, c) ∷ s.asked)
unfolding run
failed_listing_settles_again s c d = (refl, refl)

-- The list that the page asks for at its mount is shown whenever it arrives, also when a settlement and
-- the fetching of what is left were over before: the debts are then shown again, and a press asks to
-- settle them.
late_list_settles_again :
    (s : Liquidity) (c d : String) (old left : List Debt)
    → s.is_outdated ≡ false
    → s.pending ≡ Pending.fetching ∷ []
    → let ids = map (λ (x : Debt). x.debt_id) in
      let again = run s (
        press c
        ∷ settled 0 done
        ∷ settled 0 (listed left)
        ∷ settled 0 (listed old)
        ∷ press d
        ∷ []) in
      (again.debt ≡ old) × (again.asked ≡ (ids old, d) ∷ (ids s.debt, c) ∷ s.asked)
unfolding run
late_list_settles_again s c d old left live waiting = rw (waiting, live) (refl, refl)
