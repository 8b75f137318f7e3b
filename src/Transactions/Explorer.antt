-- ===== src/Transactions/Explorer.antt =====
-- The link to the blockchain explorer of frontend/src/components/ExplorerLink.tsx and of
-- mobile/src/components/ExplorerLink.tsx. Neither a version nor the name of a chain has a dollar sign, which
-- `replace` would read.
use reference_wallet.Base.{ℕ, ◌≡◌, refl, Option, none, some, List, [], ◌∷◌, ◌++◌, codes}
use reference_wallet.Amount.Text.{print_nat}
use reference_wallet.Send.Intents.{strip_prefix}

-- `text.replace(pattern, value)`, with the first place only.
unfoldable replace_first : List ℕ → List ℕ → List ℕ → List ℕ
unfolding strip_prefix
replace_first pattern value [] = []
replace_first pattern value (c ∷ cs) =
    let rest = replace_first pattern value cs in
    elim (strip_prefix pattern (c ∷ cs)) [ none ↦ c ∷ rest | some behind ↦ value ++ behind ]

-- `EXPLORER_URL_FORMAT`, from the environment if it has one.
abbrev explorer_url_format : Option (List ℕ) → List ℕ
explorer_url_format none = codes "https://diemexplorer.com/{chainDisplayName}/version/{version}"
explorer_url_format (some url) = url

unfoldable block_explorer_url : Option (List ℕ) → List ℕ → ℕ → List ℕ
unfolding replace_first print_nat
block_explorer_url environment chain_display_name version =
    replace_first (codes "{chainDisplayName}") chain_display_name
      (replace_first (codes "{version}") (print_nat version) (explorer_url_format environment))

abbrev mobile_url_format : Option (List ℕ) → List ℕ
mobile_url_format none = codes "https://librabrowser.io/version/{version}"
mobile_url_format (some url) = url

unfoldable mobile_explorer_url : Option (List ℕ) → ℕ → List ℕ
unfolding replace_first print_nat
mobile_explorer_url environment version =
    replace_first (codes "{version}") (print_nat version) (mobile_url_format environment)

-- Without an environment, the links end in the version, whatever the chain and the version.
default_link :
    (chain_display_name : List ℕ) (version : ℕ)
    → block_explorer_url none chain_display_name version
      ≡ codes "https://diemexplorer.com/"
        ++ (chain_display_name ++ (codes "/version/" ++ (print_nat version ++ [])))
unfolding block_explorer_url replace_first
default_link chain_display_name version = refl

default_mobile_link :
    (version : ℕ)
    → mobile_explorer_url none version
      ≡ codes "https://librabrowser.io/version/" ++ (print_nat version ++ [])
unfolding mobile_explorer_url replace_first
default_mobile_link version = refl
