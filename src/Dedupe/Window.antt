-- ===== src/Dedupe/Window.antt =====
-- The claims of crates/oanda/src/dedupe.rs against a history of all ids that were ever claimed.
use trading_gateway.Exit.Index.{member, member-append}
use trading_gateway.Base.{◌∙◌, length-append}
use trading_gateway.Base.{
  ℕ, zero, suc, ◌-◌, ◌≤◌, String, Bool, true, false, ◌&&◌, not, List, [], ◌∷◌, ◌++◌, any, length,
  ltb, ◌==◌, option_eq, string_eq, nat_eq, if◌then◌else◌, ◌≡◌, inl, inr, refl, sym, subst, ap,
  arith, Bool-cases,
}
use trading_gateway.Dedupe.{
  with_capacity, claim_each, PublishedTransactions, forget, evict, claim_one, try_claim_all,
}
use trading_gateway.Exit.Types.{leg_eq}
use trading_gateway.Exit.Index.{member, member-append}

abbrev drop : {A : Type 0} → ℕ → List A → List A
drop zero xs = xs
drop (suc n) [] = []
drop (suc n) (x ∷ xs) = drop n xs

abbrev behind_first : {A : Type 0} → List A → List A
behind_first [] = []
behind_first (x ∷ xs) = xs

-- The last ids of a history, as many as the capacity.
abbrev pub window : ℕ → List String → List String
window capacity history = drop (length history - capacity) history

-- The specification: a claim succeeds if none of its ids is in the window. Each id then joins the
-- history, unless it is in the window already.
abbrev pub join : ℕ → String → List String → List String
join capacity id history =
    if member id (window capacity history) then history else history ++ id ∷ []

abbrev pub remember : ℕ → List String → List String → List String
remember capacity [] history = history
remember capacity (id ∷ ids) history = remember capacity ids (join capacity id history)

abbrev pub expected : ℕ → List (List String) → List String → List Bool
expected capacity [] history = []
expected capacity (ids ∷ claims) history =
    if any (λ id. member id (window capacity history)) ids
    then false ∷ expected capacity claims history
    else true ∷ expected capacity claims (remember capacity ids history)

-- The answers to claims, one after the other.
unfoldable pub answers : List (List String) → PublishedTransactions → List Bool
answers [] p = []
answers (ids ∷ claims) p = let (claimed, p1) = try_claim_all ids p in claimed ∷ answers claims p1

abbrev Distinct : List String → Type 0
Distinct [] = Unit
Distinct (x ∷ xs) = (member x xs ≡ false) × Distinct xs

drop-nil : (n : ℕ) → drop {A = String} n [] ≡ []
drop-nil zero = refl
drop-nil (suc n) = refl

length-drop : (n : ℕ) (xs : List String) → length (drop n xs) ≡ length xs - n
length-drop zero xs = omega arith
length-drop (suc n) [] = omega arith
length-drop (suc n) (x ∷ xs) = omega (arith, length-drop n xs)

drop-append : (n : ℕ) (xs ys : List String) → n ≤ length xs → drop n (xs ++ ys) ≡ drop n xs ++ ys
drop-append zero xs ys le = refl
drop-append (suc n) [] ys le = absurd (omega (arith, le))
drop-append (suc n) (x ∷ xs) ys le = drop-append n xs ys (omega (arith, le))

drop-suc : (n : ℕ) (xs : List String) → drop (suc n) xs ≡ behind_first (drop n xs)
drop-suc zero [] = refl
drop-suc zero (x ∷ xs) = refl
drop-suc (suc n) [] = refl
drop-suc (suc n) (x ∷ xs) = drop-suc n xs

-- The window moves on by one.
window-snoc :
    (capacity : ℕ) (history : List String) (id : String)
    → window capacity (history ++ id ∷ []) ≡ (
        if ltb capacity (length (window capacity history ++ id ∷ []))
        then behind_first (window capacity history ++ id ∷ [])
        else window capacity history ++ id ∷ [])
window-snoc capacity history id =
    let n = length history - capacity in
    let le : n ≤ length history = omega arith in
    let len = length-append history (id ∷ []) in
    let grown = length-append (window capacity history) (id ∷ []) in
    let wide = length-drop n history in
    elim (Bool-cases (ltb (length history) capacity)) [
      | inl small ↦
          let none_over : length (history ++ id ∷ []) - capacity ≡ 0 = ground (arith, len) in
          let none_yet : n ≡ 0 = ground arith in
          let fits : ltb capacity (length (window capacity history ++ id ∷ [])) ≡ false =
            ground (arith, grown, wide) in
          rw (fits, none_over, none_yet) refl
      | inr large ↦
          let one_more : length (history ++ id ∷ []) - capacity ≡ suc n = ground (arith, len) in
          let over : ltb capacity (length (window capacity history ++ id ∷ [])) ≡ true =
            ground (arith, grown, wide) in
          rw (over, one_more)
            (drop-suc n (history ++ id ∷ []) ∙ ap behind_first (drop-append n history (id ∷ []) le))
    ]

Distinct-snoc :
    (id : String) (xs : List String) → member id xs ≡ false → Distinct xs → Distinct (xs ++ id ∷ [])
Distinct-snoc id [] out d = (refl, tt)
Distinct-snoc id (x ∷ xs) out (new, d) = (
  ground (
    arith,
    new,
    out,
    member-append x xs (id ∷ []),
    string_eq.beq_iff x id,
    string_eq.beq_iff id x,
  ),
  Distinct-snoc id xs (ground (arith, out)) d,
)

member-forget :
    (k gone : String) (ids : List String)
    → member k (forget gone ids) ≡ (member k ids && not (gone == k))
unfolding forget
member-forget k gone [] = refl
member-forget k gone (x ∷ ids) = ground (
  arith,
  member-forget k gone ids,
  string_eq.beq_iff x gone,
  string_eq.beq_iff x k,
  string_eq.beq_iff gone k,
)

-- The state stands for a history.
record StandsFor (p : PublishedTransactions) (history : List String) : Type 0 where
  in_order : p.order ≡ window p.capacity history
  same_members : (k : String) → member k p.seen ≡ member k p.order
  distinct : Distinct p.order

evicted-members :
    (xs : List String) (p : PublishedTransactions) (k : String)
    → p.order ≡ xs
    → Distinct xs
    → ((j : String) → member j p.seen ≡ member j xs)
    → member k (evict xs p).seen ≡ member k (evict xs p).order
evicted-members [] p k is d same = rw (is) (same k)
evicted-members (x ∷ xs) p k is (new, d) same =
    elim (Bool-cases (ltb p.capacity (length p.order))) [
      | inl over ↦
          rw (over) (ground (arith, member-forget k x p.seen, same k, new, string_eq.beq_iff x k))
      | inr room ↦ rw (room, is) (same k)
    ]

evicted-order :
    (xs : List String) (p : PublishedTransactions)
    → p.order ≡ xs
    → ((evict xs p).order ≡ (if ltb p.capacity (length xs) then behind_first xs else xs))
      × ((evict xs p).capacity ≡ p.capacity)
evicted-order [] p is = (rw (is) (ground arith), refl)
evicted-order (x ∷ xs) p is = elim (Bool-cases (ltb p.capacity (length (x ∷ xs)))) [
  | inl over ↦ rw (is, over) (refl, refl)
  | inr room ↦ rw (is, room) (refl, refl)
]

behind_first-Distinct : (xs : List String) → Distinct xs → Distinct (behind_first xs)
behind_first-Distinct [] d = tt
behind_first-Distinct (x ∷ xs) (new, d) = d

window-Distinct :
    (over : Bool) (xs : List String) → Distinct xs → Distinct (if over then behind_first xs else xs)
window-Distinct true xs d = behind_first-Distinct xs d
window-Distinct false xs d = d

evicted-window :
    (order : List String) (p : PublishedTransactions) (history : List String) (id : String)
    → p.order ≡ order
    → order ≡ window p.capacity history ++ id ∷ []
    → (evict order p).order ≡ window (evict order p).capacity (history ++ id ∷ [])
evicted-window order p history id is grown =
    let (now_, kept) = evicted-order order p is in
    let cut : List String → List String =
      λ xs. if ltb p.capacity (length xs) then behind_first xs else xs in
    let moved = ap cut grown ∙ sym (window-snoc p.capacity history id) in
    now_ ∙ moved ∙ ap (λ c. window c (history ++ id ∷ [])) (sym kept)

claim_new-StandsFor :
    (id : String) (p : PublishedTransactions) (history : List String)
    → member id p.seen ≡ false
    → StandsFor p history
    → let grown = record p { seen = p.seen ++ id ∷ []; order = p.order ++ id ∷ [] } in
      StandsFor (evict grown.order grown) (history ++ id ∷ [])
      × ((evict grown.order grown).capacity ≡ p.capacity)
claim_new-StandsFor id p history new s =
    let grown = record p { seen = p.seen ++ id ∷ []; order = p.order ++ id ∷ [] } in
    let order = p.order ++ id ∷ [] in
    let out : member id p.order ≡ false = ground (arith, new, s.same_members id) in
    let distinct = Distinct-snoc id p.order out s.distinct in
    let (now_, kept) = evicted-order order grown refl in
    let is = s.in_order in
    (
      record {
        in_order = evicted-window order grown history id refl (ap (λ xs. xs ++ id ∷ []) is);
        same_members = λ k. evicted-members order grown k refl distinct (λ j. ground (
          arith,
          s.same_members j,
          member-append j p.seen (id ∷ []),
          member-append j p.order (id ∷ []),
        ));
        distinct =
            subst Distinct (sym now_)
              (window-Distinct (ltb p.capacity (length order)) order distinct);
      },
      kept,
    )

in_window :
    (p : PublishedTransactions) (history : List String)
    → StandsFor p history
    → (k : String) → member k p.seen ≡ member k (window p.capacity history)
in_window p history s k = s.same_members k ∙ ap (member k) s.in_order

claim_one-StandsFor :
    (id : String) (p : PublishedTransactions) (history : List String)
    → StandsFor p history
    → StandsFor (claim_one id p) (join p.capacity id history)
      × ((claim_one id p).capacity ≡ p.capacity)
unfolding claim_one
claim_one-StandsFor id p history s = elim (Bool-cases (member id p.seen)) [
  | inl known ↦ rw (sym (in_window p history s id), known) (s, refl)
  | inr new ↦ rw (sym (in_window p history s id), new) (claim_new-StandsFor id p history new s)
]

claim_each-StandsFor :
    (ids : List String) (p : PublishedTransactions) (history : List String)
    → StandsFor p history
    → StandsFor (claim_each ids p) (remember p.capacity ids history)
      × ((claim_each ids p).capacity ≡ p.capacity)
unfolding claim_each
claim_each-StandsFor [] p history s = (s, refl)
claim_each-StandsFor (id ∷ ids) p history s =
    let (s1, same) = claim_one-StandsFor id p history s in
    let (s2, same2) = claim_each-StandsFor ids (claim_one id p) (join p.capacity id history) s1 in
    (
      subst
          (λ c.
            StandsFor (claim_each ids (claim_one id p))
              (remember c ids (join p.capacity id history)))
          same s2,
      same2 ∙ same,
    )

any-same :
    (f g : String → Bool) (ids : List String) → ((k : String) → f k ≡ g k) → any f ids ≡ any g ids
any-same f g [] same = refl
any-same f g (x ∷ ids) same = rw (same x, any-same f g ids same) refl

answers-expected :
    (claims : List (List String)) (p : PublishedTransactions) (history : List String)
    → StandsFor p history
    → answers claims p ≡ expected p.capacity claims history
unfolding answers try_claim_all
answers-expected [] p history s = refl
answers-expected (ids ∷ claims) p history s =
    let seen : String → Bool = λ k. member k p.seen in
    let known : String → Bool = λ k. member k (window p.capacity history) in
    let same = any-same seen known ids (in_window p history s) in
    let (s1, kept) = claim_each-StandsFor ids p history s in
    elim (Bool-cases (any seen ids)) [
      | inl some_known ↦
          rw (sym same, some_known) (ap (λ r. false ∷ r) (answers-expected claims p history s))
      | inr all_new ↦
          rw (sym same, all_new)
            (ap (λ r. true ∷ r)
              (answers-expected claims (claim_each ids p) (remember p.capacity ids history) s1
                ∙ ap (λ c. expected c claims (remember p.capacity ids history)) kept))
    ]

-- Claims, one after the other, against a fresh set: a claim succeeds exactly if none of its ids is
-- among the last ids that were claimed, as many as the capacity; otherwise nothing is claimed.
pub try_claim_all-refines :
    (capacity : ℕ) (claims : List (List String))
    → answers claims (with_capacity capacity) ≡ expected capacity claims []
unfolding with_capacity
try_claim_all-refines capacity claims =
    answers-expected claims (with_capacity capacity) []
      record { in_order = sym (drop-nil (0 - capacity)); same_members = λ k. refl; distinct = tt }
