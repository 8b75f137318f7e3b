-- ===== src/Backend/Offchain.antt =====
-- The methods "Offchain" and `getChain` of frontend/src/services/backendClient.ts.
use reference_wallet.Base.{Option, none, some, String, ◌/◌, ◌==◌, [], ◌∷◌, Bool, not, if◌then◌else◌}
use reference_wallet.Amount.{whole}
use reference_wallet.Amount.Text.{Fraction}
use reference_wallet.Payment.Params.{
  PaymentAction, authorization, charge, PaymentParams, Number, positive, negative, infinity,
  negative_infinity, Timestamp, since, before,
}
use reference_wallet.Backend.Http.{
  Value, Call, undefined, null, string, bool, number, end, field, get_field, join, show_bool,
  get_call, post_call, post_empty_call, put_call, whole_data, nothing,
}
use reference_wallet.Backend.User.{or_absent}

unfoldable pub get_chain : Call Value
get_chain = get_call "/network" whole_data

unfoldable pub get_new_funds_pull_pre_approvals : Call Value
unfolding get_field
get_new_funds_pull_pre_approvals =
    get_call "/offchain/funds_pull_pre_approvals?status=pending"
      (get_field "funds_pull_pre_approvals")

unfoldable pub get_all_funds_pull_pre_approvals : Call Value
unfolding get_field
get_all_funds_pull_pre_approvals =
    get_call "/offchain/funds_pull_pre_approvals" (get_field "funds_pull_pre_approvals")

unfoldable pub update_approval_status : String → String → Call (Unit {0})
unfolding join
update_approval_status funds_pull_pre_approval_id status =
    put_call (join ("/offchain/funds_pull_pre_approvals/" ∷ funds_pull_pre_approval_id ∷ []))
      (field "status" (string status) end) nothing

-- `action.toLowerCase()` of the enumeration's texts.
abbrev pub lower_case_action : Option PaymentAction → Value
lower_case_action none = undefined
lower_case_action (some authorization) = string "authorization"
lower_case_action (some charge) = string "charge"

-- `addPayment` shortens one of them.
abbrev pub short_action : Option PaymentAction → Value
short_action none = undefined
short_action (some authorization) = string "auth"
short_action (some charge) = string "charge"

-- The minus sign of a zero is not written.
abbrev pub minus : Fraction → Value
minus x = if x.num == 0 then number x else Value.negative x

-- An infinite number is written as `null`.
abbrev pub or_absent_amount : Option Number → Value
or_absent_amount none = undefined
or_absent_amount (some (positive x)) = number x
or_absent_amount (some (negative x)) = minus x
or_absent_amount (some infinity) = null
or_absent_amount (some negative_infinity) = null

-- Seconds, from a date's milliseconds.
abbrev pub seconds : Option Timestamp → Value
seconds none = undefined
seconds (some (since d)) = number (record { num = d; den = 1000 })
seconds (some (before d)) = minus (record { num = d; den = 1000 })

abbrev pub whole_seconds : Option Timestamp → Value
whole_seconds none = undefined
whole_seconds (some (since d)) = number (whole (d / 1000))
whole_seconds (some (before d)) = minus (whole (d / 1000))

unfoldable pub add_payment_command : PaymentParams → Call (Unit {0})
add_payment_command p =
    post_call "/offchain/payment_command"
      (field "vasp_address" (string p.vasp_address) (
        field "reference_id" (string p.reference_id) (
          field "merchant_name" (or_absent p.merchant_name) (
            field "action" (lower_case_action p.action) (
              field "currency" (or_absent p.currency) (
                field "amount" (or_absent_amount p.amount)
                  (field "expiration" (seconds p.expiration) end)))))))
      nothing

unfoldable pub add_payment : PaymentParams → Call (Unit {0})
add_payment p =
    post_call "/offchain/payment"
      (field "vasp_address" (string p.vasp_address) (
        field "reference_id" (string p.reference_id) (
          field "merchant_name" (or_absent p.merchant_name) (
            field "action" (short_action p.action) (
              field "currency" (or_absent p.currency) (
                field "amount" (or_absent_amount p.amount)
                  (field "expiration" (whole_seconds p.expiration) end)))))))
      nothing

unfoldable pub get_payment_details : String → String → Bool → Call Value
unfolding join
get_payment_details reference_id vasp_address demo =
    get_call
      (join (
        "/offchain/query/payment_details?vasp_address="
        ∷ vasp_address
        ∷ "&reference_id="
        ∷ reference_id
        ∷ "&demo="
        ∷ show_bool demo
        ∷ []))
      whole_data

unfoldable pub approve_payment_command : String → Call (Unit {0})
unfolding join
approve_payment_command reference_id =
    post_empty_call (join ("/offchain/payment_command/" ∷ reference_id ∷ "/actions/approve" ∷ []))
      nothing

unfoldable pub approve_payment : String → Bool → Call (Unit {0})
unfolding join
approve_payment reference_id is_full =
    post_call (join ("/offchain/payment/" ∷ reference_id ∷ "/actions/approve" ∷ []))
      (field "init_offchain_required" (bool (not is_full)) end) nothing

unfoldable pub reject_payment : String → Call (Unit {0})
unfolding join
reject_payment reference_id =
    post_empty_call (join ("/offchain/payment/" ∷ reference_id ∷ "/actions/reject" ∷ [])) nothing
