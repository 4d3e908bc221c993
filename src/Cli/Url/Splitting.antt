-- ===== src/Cli/Url/Splitting.antt =====
-- The host and the port that `resolve_url` of cli/src/main.rs takes from a target.
use brewmble.Prelude.{
  Bool-cases, List, NoneOf, Text, [], all, ap, arith, contains, inl, inr, is_digit, join, lit, refl,
  split_by, split_by_whole, split_on, true, ℕ, ◌++◌, ◌==◌, ◌∙◌, ◌∷◌, ◌≡◌, ==_iff, split_once,
}
use brewmble.Cli.Url.{all_but_last, last, host_of, port_of}

digits_no_colon : (d : Text) → all is_digit d ≡ true → NoneOf (λ c. c == b':') d
digits_no_colon [] h = tt
digits_no_colon (c ∷ d) h = (ground arith, digits_no_colon d (ground arith))

join-cons_head :
    (c : ℕ) (p : Text) (ps : List Text)
    → join (b':' ∷ []) ((c ∷ p) ∷ ps) ≡ c ∷ join (b':' ∷ []) (p ∷ ps)
unfolding join
join-cons_head c p [] = refl
join-cons_head c p (q ∷ ps) = refl

all_but_last-concat :
    (p : Text) (ps : List Text) (d : Text) → all_but_last (p ∷ (ps ++ (d ∷ []))) ≡ p ∷ ps
all_but_last-concat p [] d = refl
all_but_last-concat p (q ∷ ps) d = rw (all_but_last-concat q ps d)

last-concat : (p : Text) (ps : List Text) (d : Text) → last (p ∷ (ps ++ (d ∷ []))) ≡ d
last-concat p [] d = refl
last-concat p (q ∷ ps) d = last-concat q ps d

-- The parts before the last one, joined again, are the text before the last colon.
split_at_last :
    (h d : Text)
    → NoneOf (λ c. c == b':') d
    → (p : Text) × (ps : List Text) × (split_on b':' (h ++ (b':' ∷ d)) ≡ p ∷ (ps ++ (d ∷ [])))
      × (join (b':' ∷ []) (p ∷ ps) ≡ h)
unfolding split_by join
split_at_last [] d k = ([], [], rw (split_by_whole (λ c. c == b':') d k), refl)
split_at_last (c ∷ h) d k =
    let (p, ps, e, j) = split_at_last h d k in
    elim (Bool-cases (c == b':')) [
      | inl colon ↦
          ([], p ∷ ps, rw colon (rw e), rw ((==_iff c b':').0 colon) (ap (λ s. b':' ∷ s) j))
      | inr other ↦ (c ∷ p, ps, rw other (rw e), join-cons_head c p ps ∙ ap (λ s. c ∷ s) j)
    ]

pub host_of-concat : (h d : Text) → all is_digit d ≡ true → host_of (h ++ (b':' ∷ d)) ≡ h
unfolding host_of lit
host_of-concat h d k =
    let (p, ps, e, j) = split_at_last h d (digits_no_colon d k) in
    rw e (rw (all_but_last-concat p ps d) j)

pub port_of-concat : (h d : Text) → all is_digit d ≡ true → port_of (h ++ (b':' ∷ d)) ≡ d
unfolding port_of
port_of-concat h d k =
    let (p, ps, e, _) = split_at_last h d (digits_no_colon d k) in rw e (last-concat p ps d)

pub contains_colon : (h d : Text) → contains (b':' ∷ []) (h ++ (b':' ∷ d)) ≡ true
unfolding split_once
contains_colon [] d = refl
contains_colon (c ∷ h) d = ground (arith, contains_colon h d)
