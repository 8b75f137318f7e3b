-- ===== src/Mobile/Send/Link.antt =====
-- The fields of the mobile send form that was opened by a link.
use reference_wallet.Base.{ℕ, ◌≡◌, refl, false, Option, none, some, List, [], ◌∷◌, ◌==◌}
use reference_wallet.Amount.Text.{Fraction}
use reference_wallet.Send.Intents.{AddressWithIntents}
use reference_wallet.Mobile.Send.{
  SendData, Edit, type_amount, choose_currency, choose_fiat_currency, edit, after_render,
  amount_text, parse_diem_address, set_address_and_intents, set_parsed_currency,
}

-- The fields are those of a link.
pub record IsLinked (a : AddressWithIntents) (x : Fraction) (d : SendData) : Type 0 where
  pub address : d.diem_address ≡ some a.address
  pub amount : d.diem_amount ≡ some (amount_text x)

module _ (decode_uri_component : List ℕ → Option (List ℕ)) where
  abbrev pub edits : Option (List ℕ) → SendData → List Edit → SendData
  edits link d [] = d
  edits link d (e ∷ es) = edits link (edit decode_uri_component link d e) es

  module _ (c : ℕ) (cs : List ℕ) (a : AddressWithIntents) (x : Fraction)
      (parsed : parse_diem_address decode_uri_component (c ∷ cs) ≡ some a)
      (with_amount : a.amount ≡ some (some x)) (positive : (x.num == 0) ≡ false) where
    set_currency-address :
        (t : Option (List ℕ)) (d : SendData)
        → (set_parsed_currency t d).diem_address ≡ d.diem_address
    set_currency-address none d = refl
    set_currency-address (some []) d = refl
    set_currency-address (some (k ∷ ks)) d = refl

    rendered-IsLinked :
        (d : SendData) → IsLinked a x (after_render decode_uri_component (some (c ∷ cs)) d)
    unfolding after_render set_address_and_intents
    rendered-IsLinked d = record {
      address =
          rw (parsed, with_amount, positive)
            (set_currency-address a.currency (record d { diem_address = some a.address }));
      amount = rw (parsed, with_amount, positive) refl;
    }

    edited-IsLinked :
        (d : SendData) (e : Edit) → IsLinked a x (edit decode_uri_component (some (c ∷ cs)) d e)
    unfolding edit
    edited-IsLinked d (type_amount t) = rendered-IsLinked (record d { diem_amount = some t })
    edited-IsLinked d (choose_currency t) = rendered-IsLinked (record d { diem_currency = some t })
    edited-IsLinked d (choose_fiat_currency t) =
        rendered-IsLinked (record d { fiat_currency = some t })

    edits-IsLinked :
        (d : SendData) (es : List Edit) → IsLinked a x d → IsLinked a x (edits (some (c ∷ cs)) d es)
    edits-IsLinked d [] h = h
    edits-IsLinked d (e ∷ es) h =
        edits-IsLinked (edit decode_uri_component (some (c ∷ cs)) d e) es (edited-IsLinked d e)

    -- When the form was opened by a link with an amount other than 0, its address and its amount are
    -- those of the link after every number of changes of the amount or a currency.
    link_prevails :
        (d : SendData) (es : List Edit)
        → IsLinked a x
            (edits (some (c ∷ cs)) (after_render decode_uri_component (some (c ∷ cs)) d) es)
    link_prevails d es =
        edits-IsLinked (after_render decode_uri_component (some (c ∷ cs)) d) es
          (rendered-IsLinked d)
