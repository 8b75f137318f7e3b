-- ===== src/Receive/Tests.antt =====
-- Runs of the dialog, and the theorems at concrete runs.
use reference_wallet.Base.{codes, ◌≡◌, refl, none, some}
use reference_wallet.Send.Intents.{receiving_link}
use reference_wallet.Transfer.Machine.{ok}
use reference_wallet.Receive.{Receive, select, settled, step, mount}

abbrev opened : Receive
opened = mount none

opened_link :
    (step
      (step opened (select (codes "XUS")))
      (settled 0 (ok (codes "tdm1x")))).receiving_address_with_intents
    ≡ some (codes "diem://tdm1x?c=XUS")
unfolding step mount receiving_link
opened_link = refl

-- The dialog once it shows the link of "XUS".
abbrev shown : Receive
shown = step (step opened (select (codes "XUS"))) (settled 0 (ok (codes "tdm1x")))
