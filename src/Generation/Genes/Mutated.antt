-- ===== src/Generation/Genes/Mutated.antt =====
-- A mutation of an individual is an individual, and its search for a replacement ends once the random
-- choices have gone through the candidates.
use test_paper_backend.Base.{
  ℕ, suc, ◌+◌, ◌<◌, ◌≡◌, refl, sym, ap, ◌∙◌, subst, inl, inr, true, false, ◌||◌, some, List, [],
  ◌∷◌, length, ◌==◌, leb, arith, Bool-cases,
}
use test_paper_backend.Generation.Genes.{
  member, remove, Draws, mutate_place, mutate_from, mutate_individual,
}
use test_paper_backend.Generation.Genes.Distinct.{
  Distinct, Within, Individual, member-remove, Within-remove, Within-weaken, Within-refl,
}
use test_paper_backend.Generation.Genes.Search.{
  longer_Missing, member-removed, Distinct-remove, removed-Within, outside, zero_plus,
  replacement-found,
}

-- What the loop leaves of the places from one on, whose ids are `rest` at the start.
record Left (draws : Draws) (fuel : ℕ) (candidate_ids selected : List ℕ) (i : ℕ) (rest : List ℕ)
    : Type 0 where
  ids : List ℕ
  returns : mutate_from draws fuel candidate_ids selected i rest ≡ some ids
  size : length ids ≡ length rest
  distinct : Distinct ids
  within : Within ids candidate_ids
  -- ids that were placed before are not chosen again
  apart : (z : ℕ) → member z selected ≡ true → member z rest ≡ false → member z ids ≡ false

module _ (draws : Draws) (fuel : ℕ) (candidate_ids : List ℕ) where
  -- The state of the loop: `selected` holds what is placed and what is left.
  record Ready (selected rest : List ℕ) : Type 0 where
    distinct_selected : Distinct selected
    distinct_rest : Distinct rest
    rest_selected : Within rest selected
    selected_candidates : Within selected candidate_ids

  stays-Ready :
      (selected : List ℕ) (current : ℕ) (rest : List ℕ)
      → Ready selected (current ∷ rest)
      → Ready selected rest
  stays-Ready selected current rest r = record {
    distinct_selected = r.distinct_selected;
    distinct_rest = r.distinct_rest.1;
    rest_selected = r.rest_selected.1;
    selected_candidates = r.selected_candidates;
  }

  moves-Ready :
      (selected : List ℕ) (current new : ℕ) (rest : List ℕ)
      → Ready selected (current ∷ rest)
      → member new candidate_ids ≡ true
      → member new (remove current selected) ≡ false
      → Ready (new ∷ remove current selected) rest
  moves-Ready selected current new rest r known fresh = record {
    distinct_selected = (fresh, Distinct-remove current selected r.distinct_selected);
    distinct_rest = r.distinct_rest.1;
    rest_selected =
        Within-weaken rest (remove current selected) new
          (Within-remove current rest selected r.distinct_rest.0 r.rest_selected.1);
    selected_candidates =
        (known, removed-Within current selected candidate_ids r.selected_candidates);
  }

  -- What a turn leaves: the id of the place, which is new to the rest and to what was placed before.
  record Placed (selected : List ℕ) (i current : ℕ) (rest : List ℕ) : Type 0 where
    new : ℕ
    now_selected : List ℕ
    turned : mutate_place draws fuel candidate_ids selected i current ≡ some (new, now_selected)
    ready : Ready now_selected rest
    known : member new candidate_ids ≡ true
    chosen : member new now_selected ≡ true
    fresh : member new rest ≡ false
    others :
        (z : ℕ)
        → member z selected ≡ true
        → (z == current) ≡ false
        → (member z now_selected ≡ true) × ((z == new) ≡ false)

  known_element : (z : ℕ) (xs ys : List ℕ) → Within xs ys → member z xs ≡ true → member z ys ≡ true
  known_element z [] ys w h = absurd (ground arith)
  known_element z (x ∷ xs) ys w h = ground (arith, w.0, h, known_element z xs ys w.1)

  other_id :
      (z new : ℕ) (xs : List ℕ) → member z xs ≡ true → member new xs ≡ false → (z == new) ≡ false
  other_id z new xs h i = ground (arith, h, i)

  same_id :
      (c current : ℕ) (xs : List ℕ)
      → member c xs ≡ false
      → member current xs ≡ true
      → (c == current) ≡ false
  same_id c current xs h i = ground (arith, h, i)

  drawn_at : (i k c : ℕ) → draws.choice i k ≡ c → draws.choice i (0 + k) ≡ c
  drawn_at i k c drawn = ap (λ m. draws.choice i m) (zero_plus k) ∙ drawn

  mutate_from-turned :
      (selected : List ℕ) (i current : ℕ) (rest : List ℕ) {new : ℕ} {now_selected ids : List ℕ}
      → mutate_place draws fuel candidate_ids selected i current ≡ some (new, now_selected)
      → mutate_from draws fuel candidate_ids now_selected (suc i) rest ≡ some ids
      → mutate_from draws fuel candidate_ids selected i (current ∷ rest) ≡ some (new ∷ ids)
  unfolding mutate_from
  mutate_from-turned selected i current rest turned returns = ground (arith, turned, returns)

  later_apart :
      (z x : ℕ) (xs : List ℕ) → (z == x) ≡ false → member z xs ≡ false → member z (x ∷ xs) ≡ false
  later_apart z x xs h i = ground (arith, h, i)

  later_member : (z x : ℕ) (xs : List ℕ) → member z xs ≡ true → member z (x ∷ xs) ≡ true
  later_member z x xs h = ground (arith, h)

  module _ (distinct : Distinct candidate_ids)
      (from_candidates : (i k : ℕ) → member (draws.choice i k) candidate_ids ≡ true)
      (all_drawn : (i c : ℕ)
        → member c candidate_ids ≡ true
        → (k : ℕ) × (k < fuel) × (draws.choice i k ≡ c)) where
    place_kept :
        (selected : List ℕ) (i current : ℕ) (rest : List ℕ)
        → Ready selected (current ∷ rest)
        → (draws.stays i || leb (length candidate_ids) (length selected)) ≡ true
        → Placed selected i current rest
    unfolding mutate_place
    place_kept selected i current rest r kept = record {
      new = current;
      now_selected = selected;
      turned = rw kept refl;
      ready = stays-Ready selected current rest r;
      known = known_element current selected candidate_ids r.selected_candidates r.rest_selected.0;
      chosen = r.rest_selected.0;
      fresh = r.distinct_rest.0;
      others = λ z h differs. (h, differs);
    }

    place_moved :
        (selected : List ℕ) (i current : ℕ) (rest : List ℕ)
        → Ready selected (current ∷ rest)
        → (draws.stays i || leb (length candidate_ids) (length selected)) ≡ false
        → Placed selected i current rest
    unfolding mutate_place
    place_moved selected i current rest r moves =
        let others = remove current selected in
        let (c, known, lacks) =
          longer_Missing candidate_ids selected distinct (ground (arith, moves)) in
        let (k, below, drawn) = all_drawn i c known in
        let (j, found, fit) = replacement-found (draws.choice i) current others 0 fuel k below (
          subst (λ x. ((x == current) ≡ false) × (member x others ≡ false))
            (sym (drawn_at i k c drawn))
            (
              same_id c current selected lacks r.rest_selected.0,
              member-removed current c selected lacks,
            )) in
        let new = draws.choice i j in
        record {
          new = new;
          now_selected = new ∷ others;
          turned = rw moves (rw found refl);
          ready = moves-Ready selected current new rest r (from_candidates i j) fit.1;
          known = from_candidates i j;
          chosen = ground arith;
          fresh =
              outside new rest others
                (Within-remove current rest selected r.distinct_rest.0 r.rest_selected.1) fit.1;
          others = λ z h differs.
              let kept : member z others ≡ true = member-remove current z selected differs ∙ h in
              (later_member z new others kept, other_id z new others kept fit.1);
        }

    left :
        (selected : List ℕ) (i : ℕ) (rest : List ℕ)
        → Ready selected rest
        → Left draws fuel candidate_ids selected i rest
    unfolding mutate_from
    left selected i [] r = record {
      ids = [];
      returns = refl;
      size = refl;
      distinct = tt;
      within = tt;
      apart = λ z h out. refl;
    }
    left selected i (current ∷ rest) r =
        let p : Placed selected i current rest =
          elim (Bool-cases (draws.stays i || leb (length candidate_ids) (length selected))) [
            | inl kept ↦ place_kept selected i current rest r kept
            | inr moves ↦ place_moved selected i current rest r moves
          ] in
        let l : Left draws fuel candidate_ids p.now_selected (suc i) rest =
          left p.now_selected (suc i) rest p.ready in
        record {
          ids = p.new ∷ l.ids;
          returns = mutate_from-turned selected i current rest p.turned l.returns;
          size = ap suc l.size;
          distinct = (l.apart p.new p.chosen p.fresh, l.distinct);
          within = (p.known, l.within);
          apart = λ z h out.
              let (chosen, differs) = p.others z h (ground (arith, out)) in
              later_apart z p.new l.ids differs (l.apart z chosen (ground (arith, out)));
        }

-- Where the choices for each place are candidates and go through all of them within `fuel` draws, the
-- mutation of an individual returns, and what it returns is an individual of the same candidates.
pub mutate_individual-Individual :
    (draws : Draws) (fuel question_count : ℕ) (candidate_ids individual : List ℕ)
    → Individual question_count candidate_ids individual
    → Distinct candidate_ids
    → ((i k : ℕ) → member (draws.choice i k) candidate_ids ≡ true)
    → ((i c : ℕ) → member c candidate_ids ≡ true → (k : ℕ) × (k < fuel) × (draws.choice i k ≡ c))
    → (mutated : List ℕ) × (mutate_individual draws fuel individual candidate_ids ≡ some mutated)
      × Individual question_count candidate_ids mutated
unfolding mutate_individual
mutate_individual-Individual draws fuel question_count [] individual h distinct from_candidates
      all_drawn =
    (individual, refl, h)
mutate_individual-Individual draws fuel question_count (c ∷ cs) individual h distinct
      from_candidates all_drawn =
    let l =
      left draws fuel (c ∷ cs) distinct from_candidates all_drawn individual 0 individual (record {
        distinct_selected = h.distinct;
        distinct_rest = h.distinct;
        rest_selected = Within-refl individual;
        selected_candidates = h.within;
      }) in
    (l.ids, l.returns, record { size = l.size ∙ h.size; distinct = l.distinct; within = l.within })
