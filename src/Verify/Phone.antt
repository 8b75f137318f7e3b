-- ===== src/Verify/Phone.antt =====
-- The first step of the wizard shows again what was typed in it.
use Prim.Native.String
use Prim.Native.String.append
use Prim.Native.Char.{code}
use mathlib.Core.List.{append-nil}
use reference_wallet.Base.{
  ℕ, ◌≡◌, refl, ap, ◌∙◌, true, some, List, [], ◌∷◌, ◌++◌, String, codes, arith, Option,
}
use reference_wallet.Backend.Http.{join}
use reference_wallet.Send.Intents.RoundTrip.{Free, split_on-append, split_on-Free}
use reference_wallet.Verify.Forms.{
  UserInfo, identity, merge, are_phone_chars, mobile_accepts, show_identity,
}

codes-append : (s t : String) → codes (String.◌++◌ s t) ≡ codes s ++ codes t
codes-append String.[] t = λ i. codes (append.nil t i)
codes-append (String.◌∷◌ c s) t =
    (λ i. codes (append.cons c s t i)) ∙ ap (◌∷◌ (code c)) (codes-append s t)

phone-codes : (p n : String) → codes (join (p ∷ " " ∷ n ∷ [])) ≡ codes p ++ b' ' ∷ codes n
unfolding join
phone-codes p n =
    codes-append p (String.◌++◌ " " (String.◌++◌ n ""))
    ∙ ap (◌++◌ (codes p)) (
        codes-append " " (String.◌++◌ n "")
        ∙ ap (◌∷◌ b' ') (codes-append n "" ∙ append-nil (codes n)))

phone_chars-Free : (cs : List ℕ) → are_phone_chars cs ≡ true → Free b' ' cs
unfolding are_phone_chars
phone_chars-Free [] h = tt
phone_chars-Free (c ∷ cs) h =
    (λ e. absurd (ground (arith, h, e)), phone_chars-Free cs (ground (arith, h)))

-- When a form of the wizard's first step, on the web or on the phone, accepts its values, and the prefix has no space, the step
-- shows the same values again after they were merged into the information.
pub identity_round_trip :
    (moment : String → Option ℕ) (now : ℕ) (u : UserInfo)
    (first last dob phone_prefix phone_number : String)
    → mobile_accepts moment now (identity first last dob phone_prefix phone_number) ≡ true
    → Free b' ' (codes phone_prefix)
    → show_identity (merge u (identity first last dob phone_prefix phone_number)) ≡ record {
      first_name = first;
      last_name = last;
      dob = dob;
      phone_prefix = some (codes phone_prefix);
      phone_number = some (codes phone_number);
    }
unfolding show_identity merge mobile_accepts
identity_round_trip moment now u first last dob p n h free =
    let plain = phone_chars-Free (codes n) (ground (arith, h)) in
    rw
      (
        phone-codes p n,
        split_on-append b' ' (codes p) (codes n) free,
        split_on-Free b' ' (codes n) plain,
      )
      refl
