-- ===== src/Prelude/Texts.antt =====
-- Sets of texts as ascending lists, in Python's order of strings.
use Prim.Native.String.{String, compare}
use mathlib.Core.Path.{◌≡◌, refl}
use mathlib.Core.Bool.{Bool, not, ◌||◌, ◌&&◌}
use mathlib.Core.List.{List, [], ◌∷◌}
use native.Mathlib.Omega.{arith}
use text.Mathlib.Text.{◌==◌, is_lt}
use text.Mathlib.TextEquality.{eq_iff}
use wlanpi_utilization.Prelude.Tests.{if◌then◌else◌}
use wlanpi_utilization.Prelude.Lists.{any, filter}

-- `a < b` on strings is the order of their code points, which is that of their UTF-8 bytes.
abbrev pub str_lt : String → String → Bool
str_lt a b = is_lt (compare a b)

-- `x in texts`
abbrev pub has_text : List String → String → Bool
has_text texts x = any (λ t. x == t) texts

-- `texts.add(x)` on a set, and `sorted` of it.
unfoldable pub insert_text : String → List String → List String
insert_text x [] = x ∷ []
insert_text x (t ∷ ts) =
    let rest = insert_text x ts in
    if x == t then t ∷ ts else if str_lt x t then x ∷ t ∷ ts else t ∷ rest

-- `tuple(sorted(set(texts)))`
unfoldable pub sorted_set : List String → List String
unfolding insert_text
sorted_set [] = []
sorted_set (t ∷ ts) = insert_text t (sorted_set ts)

-- `texts.discard(x)`
unfoldable pub discard_text : String → List String → List String
discard_text x = filter (λ t. not (t == x))

pub has_text-insert :
    (x : String) (ts : List String) (y : String)
    → has_text (insert_text x ts) y ≡ (y == x || has_text ts y)
unfolding insert_text
has_text-insert x [] y = refl
has_text-insert x (t ∷ ts) y =
    ground (arith, has_text-insert x ts y, eq_iff x t, eq_iff y x, eq_iff y t)

pub has_text-sorted_set :
    (ts : List String) (y : String) → has_text (sorted_set ts) y ≡ has_text ts y
unfolding sorted_set
has_text-sorted_set [] y = refl
has_text-sorted_set (t ∷ ts) y =
    ground (arith, has_text-insert t (sorted_set ts) y, has_text-sorted_set ts y)

pub has_text-discard :
    (x : String) (ts : List String) (y : String)
    → has_text (discard_text x ts) y ≡ (has_text ts y && not (y == x))
unfolding discard_text
has_text-discard x [] y = refl
has_text-discard x (t ∷ ts) y =
    ground (arith, has_text-discard x ts y, eq_iff t x, eq_iff y x, eq_iff y t)
