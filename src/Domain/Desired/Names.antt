-- ===== src/Domain/Desired/Names.antt =====
-- internal/domain/domain.go: the VM names of a cluster's nodes are distinct.
use kaa_s_demo.Prelude.Any.{any}
use mathlib.Core.Path.{ap₂}
use kaa_s_demo.Prelude.{
  refl, arith, true, false, ◌==◌, ◌++◌, ◌≢◌, ◌≡◌, List, ℕ, Text, [], ◌∷◌, zero, suc,
}
use kaa_s_demo.Go.Decimal.{decimal, decimal-clean, decimal_injective}
use kaa_s_demo.Domain.Desired.{vm_name_of, nodes_from, vm_names, DesiredNode}

-- the text differs from each of the list
unfoldable pub Absent : Text → List Text → Type 0
Absent x [] = Unit
Absent x (y ∷ ys) = (x ≢ y) × Absent x ys

unfoldable pub AllDistinct : List Text → Type 0
AllDistinct [] = Unit
AllDistinct (x ∷ xs) = Absent x xs × AllDistinct xs

cons_injective : (a b : ℕ) (s t : Text) → a ∷ s ≡ b ∷ t → (a ≡ b) × (s ≡ t)
cons_injective a b s t h = (cc, cc)

dash_not_clean : (q e : Text) → any (λ c. c == b'-') (q ++ b'-' ∷ e) ≡ true
unfolding any
dash_not_clean [] e = refl
dash_not_clean (c ∷ q) e = ground (arith, dash_not_clean q e)

-- a text is determined by what stands before its last dash and behind it
last_dash :
    (p q d e : Text)
    → any (λ c. c == b'-') d ≡ false
    → any (λ c. c == b'-') e ≡ false
    → p ++ b'-' ∷ d ≡ q ++ b'-' ∷ e
    → (p ≡ q) × (d ≡ e)
last_dash [] [] d e hd he h = (refl, (cons_injective b'-' b'-' d e h).1)
last_dash [] (c ∷ q) d e hd he h =
    let tail : d ≡ q ++ b'-' ∷ e = (cons_injective b'-' c d (q ++ b'-' ∷ e) h).1 in
    let has : any (λ c. c == b'-') d ≡ true = rw tail (dash_not_clean q e) in absurd (ground arith)
last_dash (c ∷ p) [] d e hd he h =
    let tail : p ++ b'-' ∷ d ≡ e = (cons_injective c b'-' (p ++ b'-' ∷ d) e h).1 in
    let has : any (λ c. c == b'-') e ≡ true = rw (← tail) (dash_not_clean p d) in
    absurd (ground arith)
last_dash (c ∷ p) (c' ∷ q) d e hd he h =
    let (c≡c', tail) = cons_injective c c' (p ++ b'-' ∷ d) (q ++ b'-' ∷ e) h in
    let (p≡q, d≡e) = last_dash p q d e hd he tail in
    (ap₂ (λ (x : ℕ) (xs : Text). x ∷ xs) c≡c' p≡q, d≡e)

prefix_cancel : (a s t : Text) → a ++ s ≡ a ++ t → s ≡ t
prefix_cancel [] s t h = h
prefix_cancel (c ∷ a) s t h = prefix_cancel a s t (cons_injective c c (a ++ s) (a ++ t) h).1

-- A VM's name determines its pool (or that it is a control plane) and its number.
pub vm_name_of_injective :
    (cluster p q : Text) (i j : ℕ)
    → vm_name_of cluster p i ≡ vm_name_of cluster q j
    → (p ≡ q) × (i ≡ j)
unfolding vm_name_of
vm_name_of_injective cluster p q i j h =
    let tails : b'-' ∷ (p ++ b'-' ∷ decimal i) ≡ b'-' ∷ (q ++ b'-' ∷ decimal j) =
      prefix_cancel cluster (b'-' ∷ (p ++ b'-' ∷ decimal i)) (b'-' ∷ (q ++ b'-' ∷ decimal j)) h in
    let (p≡q, d≡e) =
      last_dash p q (decimal i) (decimal j) (clean i) (clean j)
        (cons_injective b'-' b'-' (p ++ b'-' ∷ decimal i) (q ++ b'-' ∷ decimal j) tails).1 in
    (p≡q, decimal_injective i j d≡e)
  where
    clean : (n : ℕ) → any (λ c. c == b'-') (decimal n) ≡ false
    clean n = decimal-clean (λ c. c == b'-') (λ d h. ground arith) n

-- the names of a group of nodes, from number `i` on
unfoldable pub named_from : Text → Text → ℕ → ℕ → List Text
named_from cluster p i zero = []
named_from cluster p i (suc n) = vm_name_of cluster p i ∷ named_from cluster p (suc i) n

pub vm_names-nodes_from :
    (cluster p : Text) (f : ℕ → DesiredNode)
    → ((i : ℕ) → (f i).vm_name ≡ vm_name_of cluster p i)
    → (i n : ℕ) → vm_names (nodes_from f i n) ≡ named_from cluster p i n
unfolding vm_names nodes_from named_from
vm_names-nodes_from cluster p f h i zero = refl
vm_names-nodes_from cluster p f h i (suc n) =
    ap₂ (λ (x : Text) (xs : List Text). x ∷ xs) (h i) (vm_names-nodes_from cluster p f h (suc i) n)
