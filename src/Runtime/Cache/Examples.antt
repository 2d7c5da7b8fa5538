-- ===== src/Runtime/Cache/Examples.antt =====
-- The cache's theorems at concrete inputs.
use general_ai_core.Prelude.{◌≡◌, some, [], ◌∷◌, nat_eq, string_eq, pair_eq}
use general_ai_core.Runtime.Cache.{Cache, get, set}
use general_ai_core.Runtime.Cache.Laws.{get-set}

abbrev entries : Cache
entries = (("acme", "k"), ("old", 9)) ∷ (("acme", "j"), ("kept", 40)) ∷ []

get-set_example : (get 14 "acme" "k" (set 5 "acme" "k" "new" 10 entries)).0 ≡ some "new"
get-set_example = get-set 5 14 "acme" "k" "new" "acme" "k" 10 entries
