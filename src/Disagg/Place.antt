-- ===== src/Disagg/Place.antt =====
-- The course of a request through `serve_disagg`, without replicas, times and KV: seven places, and
-- the ways between them.
use inferencesim.Prelude.{
  ℕ, ◌+◌, ◌≡◌, refl, ap, ◌∙◌, sym, true, false, Option, none, some, sum, subst, arith,
  if◌then◌else◌, ◌==◌, inl, inr, ◌⊎◌,
}
use inferencesim.Serve.Request.{RequestRecord}
use inferencesim.Serve.Conserve.{only}
use inferencesim.Disagg.State.{
  State, Event, Tag, arrival, transfer_done, PrefillReplica, DecodeReplica,
}

pub data Place : Type 0 where
  arriving queued prefilling moving parked decoding finished : Place

-- The ways: arrival, the start and the end of a prefill, the end of a transfer, the start of the
-- decoding, preemption, and completion.
pub data Way : Place → Place → Type 0 where
  arrive : Way arriving queued
  fill : Way queued prefilling
  send : Way prefilling moving
  deliver : Way moving parked
  admit : Way parked decoding
  preempt : Way decoding queued
  complete : Way decoding finished

-- A course of no or more ways.
pub data Course : Place → Place → Type 0 where
  stop : {x : Place} → Course x x
  go : {x y z : Place} → Course x y → Way y z → Course x z

pub Course-trans : {x y z : Place} → Course x y → Course y z → Course x z
Course-trans c stop = c
Course-trans c (go d w) = go (Course-trans c d) w

abbrev pub arriving_weight : (ℕ → ℕ) → Tag → ℕ → ℕ
arriving_weight w arrival i = w i
arriving_weight w _ i = 0

abbrev pub moving_weight : (ℕ → ℕ) → Tag → ℕ → ℕ
moving_weight w transfer_done i = w i
moving_weight w _ i = 0

abbrev pub held : (ℕ → ℕ) → Option ℕ → ℕ
held w none = 0
held w (some r) = w r

-- The sum of a weight over the requests at a place.
abbrev pub view : (ℕ → ℕ) → State → Place → ℕ
view w s arriving = sum (λ (e : Event). arriving_weight w e.tag e.ref) s.heap
view w s queued = sum w s.waiting_prefill
view w s prefilling = sum (λ (pr : PrefillReplica). held w pr.current) s.preps
view w s moving = sum (λ (e : Event). moving_weight w e.tag e.ref) s.heap
view w s parked = sum w s.waiting_decode
view w s decoding = sum (λ (dr : DecodeReplica). sum w dr.running) s.dreps
view w s finished = sum (λ (c : RequestRecord). w c.idx) s.completed

abbrev pub place_no : Place → ℕ
place_no arriving = 0
place_no queued = 1
place_no prefilling = 2
place_no moving = 3
place_no parked = 4
place_no decoding = 5
place_no finished = 6

-- `k` at the place `x`, nothing at the others.
abbrev pub here : Place → Place → ℕ → ℕ
here x z k = if place_no x == place_no z then k else 0

-- The request `r` went from `x` to `y`, and all else is where it was.
abbrev pub Moved : Place → Place → ℕ → State → State → Type 0
Moved x y r s t =
    (w : ℕ → ℕ) (z : Place) → view w t z + here x z (w r) ≡ view w s z + here y z (w r)

abbrev pub Still : State → State → Type 0
Still s t = (w : ℕ → ℕ) (z : Place) → view w t z ≡ view w s z

-- The requests went some ways, one after another.
pub data Flow : State → State → Type 0 where
  still : {s t : State} → Still s t → Flow s t
  moved : {s t : State} (x y : Place) (r : ℕ) → Way x y → Moved x y r s t → Flow s t
  chain : {s t u : State} → Flow s t → Flow t u → Flow s u

-- Request `i` is at one place, once.
abbrev pub IsAt : ℕ → Place → State → Type 0
IsAt i x s = (z : Place) → view (only i) s z ≡ here x z 1

only_cases : (i r : ℕ) → (only i r ≡ 0) ⊎ (only i r ≡ 1)
only_cases i r = ground arith

place_of : ℕ → Place
place_of n =
    if n == 0
    then arriving
    else if n == 1
    then queued
    else if n == 2
    then prefilling
    else if n == 3
    then moving
    else if n == 4
    then parked
    else if n == 5
    then decoding
    else finished

place_of-no : (x : Place) → place_of (place_no x) ≡ x
unfolding place_of
place_of-no arriving = refl
place_of-no queued = refl
place_of-no prefilling = refl
place_of-no moving = refl
place_of-no parked = refl
place_of-no decoding = refl
place_of-no finished = refl

Way_apart : {x y : Place} → Way x y → (place_no x == place_no y) ≡ false
Way_apart arrive = refl
Way_apart fill = refl
Way_apart send = refl
Way_apart deliver = refl
Way_apart admit = refl
Way_apart preempt = refl
Way_apart complete = refl

same_place : (x y : Place) → (place_no x == place_no y) ≡ true → x ≡ y
same_place x y e =
    let h : place_no x ≡ place_no y = ground arith in
    sym (place_of-no x) ∙ ap place_of h ∙ place_of-no y

-- What goes from `x`, while one request is at `z` alone, went from `z`.
went_from :
    (x y z : Place) (c d : Place → ℕ) (k : ℕ)
    → k ≡ 1
    → (place_no x == place_no y) ≡ false
    → ((u : Place) → d u + here x u k ≡ c u + here y u k)
    → ((u : Place) → c u ≡ here z u 1)
    → (z ≡ x) × ((u : Place) → d u ≡ here y u 1)
went_from x y z c d k one a m h =
    let at_x = m x in
    let before = h x in
    let e : (place_no z == place_no x) ≡ true = ground arith in
    let q = same_place z x e in
    (
      q,
      λ u. let go = m u in let l : c u ≡ here x u 1 = h u ∙ ap (λ v. here v u 1) q in ground arith,
    )

went_nowhere :
    (x y : Place) (c d : Place → ℕ) (k : ℕ)
    → k ≡ 0
    → ((u : Place) → d u + here x u k ≡ c u + here y u k)
    → (u : Place) → d u ≡ c u
went_nowhere x y c d k e m u = let l = m u in ground arith

-- The lifecycle of one request is what the moves of all do to it.
pub IsAt-Flow :
    (i : ℕ) (x : Place) (s t : State)
    → Flow s t
    → IsAt i x s
    → (y : Place) × Course x y × IsAt i y t
IsAt-Flow i x s t (still e) h = (x, stop, λ z. e (only i) z ∙ h z)
IsAt-Flow i x s t (chain {t = u} f g) h =
    let (y, c, k) = IsAt-Flow i x s u f h in
    let (z, d, l) = IsAt-Flow i y u t g k in (z, Course-trans c d, l)
IsAt-Flow i x s t (moved a b r way m) h = elim (only_cases i r) [
  | inl e ↦ (
    x,
    stop,
    λ z. went_nowhere a b (view (only i) s) (view (only i) t) (only i r) e (m (only i)) z ∙ h z,
  )
  | inr e ↦
      let (q, l) =
        went_from a b x (view (only i) s) (view (only i) t) (only i r) e (Way_apart way)
          (m (only i)) h in
      (b, subst (λ v. Course v b) (sym q) (go stop way), l)
]
