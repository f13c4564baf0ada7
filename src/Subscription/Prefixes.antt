-- ===== src/Subscription/Prefixes.antt =====
-- internal/usecase/subscription/subscription.go: lists of prefixes as sets.
use concrnt.Prelude.{
  String, ◌≡◌, ◌↔◌, ◌∙◌, ap, sym, inl, inr, refl, Bool, true, false, ◌&&◌, ◌||◌, List, [], ◌∷◌,
  Bool-cases, arith, str_eq, str_eq→eq, str_eq_refl,
}
use concrnt.Prelude.Text.{contains}
use concrnt.Subscription.{insert, insert_all, all_in, same_prefix_set}

or_idem : (a b : Bool) → (a ≡ true → b ≡ true) → b ≡ (a || b)
or_idem true b h = h refl
or_idem false b h = refl

or_swap : (a b c : Bool) → (a || (b || c)) ≡ ((b || a) || c)
or_swap true true c = refl
or_swap true false c = refl
or_swap false true c = refl
or_swap false false c = refl

contains_eq :
    (set : List String) (q p : String)
    → contains set q ≡ true
    → str_eq q p ≡ true
    → contains set p ≡ true
contains_eq set q p h e = ap (contains set) (sym (str_eq→eq q p e)) ∙ h

contains-insert :
    (q p : String) (set : List String) → contains (insert q set) p ≡ (str_eq q p || contains set p)
unfolding insert contains
contains-insert q p set = elim (Bool-cases (contains set q)) [
  | inl h ↦ rw h (or_idem (str_eq q p) (contains set p) (contains_eq set q p h))
  | inr h ↦ rw h refl
]

pub contains-insert_all :
    (ps set : List String) (p : String)
    → contains (insert_all ps set) p ≡ (contains ps p || contains set p)
unfolding insert_all contains
contains-insert_all [] set p = refl
contains-insert_all (q ∷ ps) set p =
    contains-insert_all ps (insert q set) p
    ∙ ap (λ b. contains ps p || b) (contains-insert q p set)
    ∙ or_swap (contains ps p) (str_eq q p) (contains set p)

pub or_false : (b : Bool) → (b || false) ≡ b
or_false true = refl
or_false false = refl

contains-set : (ps : List String) (p : String) → contains (insert_all ps []) p ≡ contains ps p
unfolding contains
contains-set ps p = contains-insert_all ps [] p ∙ or_false (contains ps p)

all_in-elim :
    (ps set : List String) (p : String)
    → all_in ps set ≡ true
    → contains ps p ≡ true
    → contains set p ≡ true
unfolding all_in contains
all_in-elim (q ∷ ps) set p h k = elim (Bool-cases (str_eq q p)) [
  | inl e ↦ contains_eq set q p (ground arith) e
  | inr n ↦ all_in-elim ps set p (ground arith) (ground arith)
]
all_in-elim [] set p h k = cc

all_in-intro :
    (ps set : List String)
    → ((p : String) → contains ps p ≡ true → contains set p ≡ true)
    → all_in ps set ≡ true
unfolding all_in contains
all_in-intro [] set h = refl
all_in-intro (q ∷ ps) set h =
    rw (h q (rw (str_eq_refl q) refl)) (all_in-intro ps set (λ p k. h p (ground arith)))

bool_ext : (a b : Bool) → (a ≡ true → b ≡ true) → (b ≡ true → a ≡ true) → a ≡ b
bool_ext true b f g = sym (f refl)
bool_ext false true f g = g refl
bool_ext false false f g = refl

subset :
    (a b : List String)
    → all_in a (insert_all b []) ≡ true
    → (p : String) → contains a p ≡ true
    → contains b p ≡ true
subset a b h p k = sym (contains-set b p) ∙ all_in-elim a (insert_all b []) p h k

and_both : (a b : Bool) → a ≡ true → b ≡ true → (a && b) ≡ true
and_both a b h k = rw (h, k) refl

-- samePrefixSet answers true exactly if the two lists hold the same prefixes, whatever their order
-- and however often they hold each.
pub same_prefix_set_iff :
    (a b : List String)
    → (same_prefix_set a b ≡ true) ↔ ((p : String) → contains a p ≡ contains b p)
unfolding same_prefix_set
same_prefix_set_iff a b = (
  (λ h p.
      bool_ext (contains a p) (contains b p) (subset a b (ground arith) p)
        (subset b a (ground arith) p)),
  (λ h.
      and_both _ _ (all_in-intro b (insert_all a []) (λ p k. contains-set a p ∙ h p ∙ k))
        (all_in-intro a (insert_all b []) (λ p k. contains-set b p ∙ sym (h p) ∙ k))),
)
