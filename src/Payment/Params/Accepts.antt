-- ===== src/Payment/Params/Accepts.antt =====
-- The code of frontend/src/utils/payment-params.ts decides the relation of Relation.antt.
use reference_wallet.Base.{
  ◌≤◌, ◌≡◌, ◌≢◌, ◌↔◌, refl, sym, subst, ==_iff, ap, true, false, List, String, ◌==◌, length, arith,
  Bool-cases, inl, inr,
}
use reference_wallet.Payment.Params.{
  PaymentParams, Browser, PaymentParamError, ok, require, get_param, to_checkout_data_type,
  to_action, nonzero_number, known_type, known_action, exact_date, short_params, full_params,
  params_of, from_url_query_string,
}
use reference_wallet.Payment.Params.Relation.{
  Has, IsDetailed, Accepts, brief, returning, detailed, get_param-eq-ok, get_param_of_Has, >>=-elim,
  ok-injective, require-eq-ok, nonzero_number-eq-ok, exact_date-eq-ok, known_type-eq-ok,
  known_action-eq-ok, nonzero_number_lem, exact_date_lem,
}

module _ (b : Browser) (params : List (String × String)) where
  full_params_sound :
      (va rid ru : String) (p : PaymentParams)
      → length params ≢ 3
      → length params ≢ 4
      → Has params "vaspAddress" va
      → Has params "referenceId" rid
      → Has params "redirectUrl" ru
      → b.is_url ru ≡ true
      → full_params b params va rid ru ≡ ok p
      → IsDetailed b params p
  unfolding full_params
  full_params_sound va rid ru p n3 n4 hva hrid hru url h =
      >>=-elim (get_param params "merchantName") _ h λ mn e1 h1.
        >>=-elim (get_param params "checkoutDataType") _ h1 λ ty e2 h2.
          >>=-elim (get_param params "action") _ h2 λ ac e3 h3.
            >>=-elim (get_param params "currency") _ h3 λ cu e4 h4.
              >>=-elim (get_param params "amount") _ h4 λ am e5 h5.
                >>=-elim (get_param params "expiration") _ h5 λ ex e6 h6.
                  >>=-elim (require (b.is_uuid rid) PaymentParamError.invalid_uuid) _ h6 λ u e7 h7.
                    >>=-elim (nonzero_number (b.to_number am)) _ h7 λ amount e8 h8.
                      >>=-elim (known_type (to_checkout_data_type ty)) _ h8 λ type e9 h9.
                        >>=-elim (known_action (to_action ac)) _ h9 λ action e10 h10.
                          >>=-elim (exact_date b (b.to_date ex) ex) _ h10 λ expiration e11 h11.
                            let same = ok-injective h11 in
                            let uuid = require-eq-ok (b.is_uuid rid) _ e7 in
                            subst (λ p. IsDetailed b params p) same
                              (record {
                                redirect_url = ru;
                                merchant_name = mn;
                                type_txt = ty;
                                action_txt = ac;
                                currency = cu;
                                amount_txt = am;
                                expiration_txt = ex;
                                checkout_data_type = type;
                                action = action;
                                amount = amount;
                                expiration = expiration;
                                not_three = n3;
                                not_four = n4;
                                has_vasp_address = hva;
                                has_reference_id = hrid;
                                has_redirect_url = hru;
                                has_merchant_name = get_param-eq-ok params "merchantName" e1;
                                has_type = get_param-eq-ok params "checkoutDataType" e2;
                                has_action = get_param-eq-ok params "action" e3;
                                has_currency = get_param-eq-ok params "currency" e4;
                                has_amount = get_param-eq-ok params "amount" e5;
                                has_expiration = get_param-eq-ok params "expiration" e6;
                                url_valid = url;
                                uuid_valid = uuid;
                                amount_valid = nonzero_number-eq-ok (b.to_number am) e8;
                                type_valid = known_type-eq-ok (to_checkout_data_type ty) e9;
                                action_valid = known_action-eq-ok (to_action ac) e10;
                                expiration_valid = exact_date-eq-ok b (b.to_date ex) ex e11;
                                same = refl;
                              })

  params_of_sound : (p : PaymentParams) → params_of b params ≡ ok p → Accepts b params p
  unfolding params_of
  params_of_sound p h = >>=-elim (get_param params "vaspAddress") _ h λ va e1 h1.
      >>=-elim (get_param params "referenceId") _ h1 λ rid e2 h2.
        let hva = get_param-eq-ok params "vaspAddress" e1 in
        let hrid = get_param-eq-ok params "referenceId" e2 in
        elim (Bool-cases (length params == 3)) [
          | inl three ↦
              brief va rid ((==_iff _ _).0 three) hva hrid (sym (ok-injective (rw three at h2)))
          | inr more ↦ >>=-elim (get_param params "redirectUrl") _ (rw more at h2) λ ru e3 h3.
              >>=-elim (require (b.is_url ru) PaymentParamError.invalid_url) _ h3 λ u e4 h4.
                let hru = get_param-eq-ok params "redirectUrl" e3 in
                let url = require-eq-ok (b.is_url ru) _ e4 in
                elim (Bool-cases (length params == 4)) [
                  | inl four ↦
                      returning va rid ru ((==_iff _ _).0 four) hva hrid hru url
                        (sym (ok-injective (rw four at h4)))
                  | inr full ↦ detailed (
                      full_params_sound va rid ru p (ground arith) (ground arith) hva hrid hru url
                        (rw full at h4))
                ]
        ]

  full_params_complete :
      (p : PaymentParams) (d : IsDetailed b params p)
      → full_params b params p.vasp_address p.reference_id d.redirect_url ≡ ok p
  unfolding full_params
  full_params_complete p d =
      let amount = d.amount_valid in
      let expiration = d.expiration_valid in
      rw
        (
          get_param_of_Has params "merchantName" d.has_merchant_name,
          get_param_of_Has params "checkoutDataType" d.has_type,
          get_param_of_Has params "action" d.has_action,
          get_param_of_Has params "currency" d.has_currency,
          get_param_of_Has params "amount" d.has_amount,
          get_param_of_Has params "expiration" d.has_expiration,
          d.uuid_valid,
          nonzero_number_lem (b.to_number d.amount_txt) amount.0 amount.1,
          d.type_valid,
          d.action_valid,
          exact_date_lem b (b.to_date d.expiration_txt) d.expiration_txt expiration.0 expiration.1,
        )
        (ap ok (sym d.same))

  params_of_complete : (p : PaymentParams) → Accepts b params p → params_of b params ≡ ok p
  unfolding params_of
  params_of_complete p (brief va rid three hva hrid same) = rw (
    get_param_of_Has params "vaspAddress" hva,
    get_param_of_Has params "referenceId" hrid,
    (==_iff _ _).1 three,
    same,
  )
  params_of_complete p (returning va rid ru four hva hrid hru url same) = rw (
    get_param_of_Has params "vaspAddress" hva,
    get_param_of_Has params "referenceId" hrid,
    get_param_of_Has params "redirectUrl" hru,
    url,
    four,
    same,
  )
  params_of_complete p (detailed d) =
      rw
        (
          get_param_of_Has params "vaspAddress" d.has_vasp_address,
          get_param_of_Has params "referenceId" d.has_reference_id,
          get_param_of_Has params "redirectUrl" d.has_redirect_url,
          d.url_valid,
        )
        (ground (arith, full_params_complete p d, d.not_three, d.not_four))

-- The code accepts a link, with certain parameters, exactly when the relation `Accepts` allows it:
-- every check of a link is there, and no other; none keeps an amount from being negative or a date from
-- being before 1970.
pub from_url_query_string_iff :
    (b : Browser) (query_string : String) (p : PaymentParams)
    → (from_url_query_string b query_string ≡ ok p) ↔ Accepts b (b.search_params query_string) p
unfolding from_url_query_string
from_url_query_string_iff b query_string p = (
  params_of_sound b (b.search_params query_string) p,
  params_of_complete b (b.search_params query_string) p,
)

-- A link of three or four parameters that is accepted is never a demonstration, whatever its
-- parameter "demo" says.
short_link-not_demo :
    (b : Browser) (query_string : String) (p : PaymentParams)
    → length (b.search_params query_string) ≤ 4
    → 3 ≤ length (b.search_params query_string)
    → from_url_query_string b query_string ≡ ok p
    → (p.demo ≡ false) × (p.is_full ≡ false)
unfolding from_url_query_string short_params
short_link-not_demo b query_string p h k e =
    short (params_of_sound b (b.search_params query_string) p e)
  where
    short : Accepts b (b.search_params query_string) p → (p.demo ≡ false) × (p.is_full ≡ false)
    short (brief va rid three hva hrid same) = rw same (refl, refl)
    short (returning va rid ru four hva hrid hru url same) = rw same (refl, refl)
    short (detailed d) = absurd (omega (arith, d.not_three, d.not_four))
