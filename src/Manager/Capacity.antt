-- ===== src/Manager/Capacity.antt =====
-- crates/tideline-server/src/manager.rs and backend.rs: the number of streams in the registry.
use tideline.Base.{
  ℕ, ◌+◌, ◌≤◌, ◌<◌, ◌≡◌, ◌⊎◌, some_cancel, refl, sym, ap, ◌∙◌, subst, String, true, none, some,
  List, [], ◌∷◌, length, max, arith, leb, dec_text, Option-cases, Bool-cases, inl, inr,
}
use tideline.Base.Table
use tideline.Base.Table.{Table}
use tideline.Stream
use tideline.Stream.{Stream, with_capacity, touch, publish}
use tideline.Manager.{
  incr_published, ManagerConfig, StreamManager, with_config, older, oldest, evict_lru, make_room,
  add_stream, get, put_back, get_or_create, delete, dead_ids, remove_all, reap, with_stream,
  backend_publish, backend_complete, backend_fail, set_private,
}

length-remove-le :
    (k : String) (m : Table String Stream) → length (Table.remove dec_text k m) ≤ length m
unfolding Table.remove
length-remove-le k [] = omega arith
length-remove-le k ((j, s) ∷ m) = ground (arith, length-remove-le k m)

-- The table holds the key.
abbrev Holds : String → Table String Stream → Type 0
Holds k m = (s : Stream) × (Table.get dec_text k m ≡ some s)

length-remove-lt :
    (k : String) (m : Table String Stream) (s : Stream)
    → Table.get dec_text k m ≡ some s
    → length (Table.remove dec_text k m) < length m
unfolding Table.remove Table.get
length-remove-lt k [] s h = cc
length-remove-lt k ((j, t) ∷ m) s h =
    ground (arith, h, length-remove-lt k m s, length-remove-le k m)

length-insert_old :
    (k : String) (v : Stream) (m : Table String Stream) (s : Stream)
    → Table.get dec_text k m ≡ some s
    → length (Table.insert dec_text k v m) ≡ length m
unfolding Table.insert Table.get
length-insert_old k v [] s h = cc
length-insert_old k v ((j, t) ∷ m) s h = ground (arith, h, length-insert_old k v m s)

length-insert-le :
    (k : String) (v : Stream) (m : Table String Stream)
    → length (Table.insert dec_text k v m) ≤ length m + 1
unfolding Table.insert
length-insert-le k v [] = omega arith
length-insert-le k v ((j, t) ∷ m) = ground (arith, length-insert-le k v m)

Holds-head : (e : String × Stream) (m : Table String Stream) → Holds e.0 (e ∷ m)
unfolding Table.get
Holds-head (k, s) m = (s, ground arith)

Holds-tail :
    (k : String) (e : String × Stream) (m : Table String Stream) → Holds k m → Holds k (e ∷ m)
unfolding Table.get
Holds-tail k (j, t) m (s, h) = elim (dec_text j k) [
  | yes a ↦ (t, ground arith)
  | no a ↦ (s, ground (arith, h))
]

older_one : (e f : String × Stream) → (older e (some f) ≡ e) ⊎ (older e (some f) ≡ f)
unfolding older
older_one e f = elim (Bool-cases (leb e.1.inner.last_activity f.1.inner.last_activity)) [
  | inl a ↦ inl (rw a)
  | inr a ↦ inr (rw a)
]

oldest-Holds : (m : Table String Stream) (e : String × Stream) → oldest m ≡ some e → Holds e.0 m
unfolding oldest
oldest-Holds [] e h = cc
oldest-Holds (x ∷ xs) e h = elim (Option-cases (oldest xs)) [
  | inl a ↦
      let same : x ≡ e = unfold older in some_cancel (ap (λ o. some (older x o)) (sym a) ∙ h) in
      subst (λ y. Holds y.0 (x ∷ xs)) same (Holds-head x xs)
  | inr (f, a) ↦
      let same : older x (some f) ≡ e = some_cancel (ap (λ o. some (older x o)) (sym a) ∙ h) in
      elim (older_one x f) [
        | inl b ↦ subst (λ y. Holds y.0 (x ∷ xs)) (sym b ∙ same) (Holds-head x xs)
        | inr b ↦
            subst (λ y. Holds y.0 (x ∷ xs)) (sym b ∙ same)
              (Holds-tail f.0 x xs (oldest-Holds xs f a))
      ]
]

oldest-none : (m : Table String Stream) → oldest m ≡ none → length m ≡ 0
unfolding oldest
oldest-none [] h = refl
oldest-none (x ∷ xs) h = cc

-- The bound: the configured number, and at least one, since the newest stream is always held.
abbrev pub Bounded : StreamManager → Type 0
Bounded m = length m.streams ≤ max m.cfg.max_streams 1

-- After `make_room` one more stream fits.
make_room-fits :
    (m : StreamManager)
    → Bounded m
    → (length (make_room m).streams < max m.cfg.max_streams 1) × ((make_room m).cfg ≡ m.cfg)
unfolding make_room evict_lru
make_room-fits m b = elim (Bool-cases (leb m.cfg.max_streams (length m.streams))) [
  | inr a ↦ ground (arith, a)
  | inl a ↦ elim (Option-cases (oldest m.streams)) [
    | inl c ↦
        let none_left = oldest-none m.streams c in
        rw (a, c, evict_lru) (omega (arith, none_left), refl)
    | inr (e, c) ↦
        let (s, h) = oldest-Holds m.streams e c in
        let fewer = length-remove-lt e.0 m.streams s h in
        rw (a, c, evict_lru) (omega (arith, fewer, b), refl)
  ]
]

-- What holds of the registry after an operation on the stream of `id`.
record Keeps (m : StreamManager) (id : String) (m' : StreamManager) : Type 0 where
  held : Holds id m'.streams
  bounded : Bounded m'
  cfg : m'.cfg ≡ m.cfg

put_back-Keeps :
    (m m' : StreamManager) (id : String) (s : Stream)
    → Keeps m id m'
    → Keeps m id (put_back m' id s)
unfolding put_back
put_back-Keeps m m' id s k = record {
  held = (s, Table.get-insert_self dec_text id s m'.streams);
  bounded = omega (arith, length-insert_old id s m'.streams k.held.0 k.held.1, k.bounded);
  cfg = k.cfg;
}

add_stream-Keeps :
    (m m' : StreamManager) (now : ℕ) (id : String)
    → m'.cfg ≡ m.cfg
    → length m'.streams < max m.cfg.max_streams 1
    → Keeps m id (add_stream m' now id)
unfolding add_stream
add_stream-Keeps m m' now id c lt =
    let new = with_capacity now m'.cfg.max_buffer in
    record {
      held = (new, Table.get-insert_self dec_text id new m'.streams);
      bounded = omega (
        arith,
        length-insert-le id new m'.streams,
        lt,
        ap (λ (x : ManagerConfig). x.max_streams) c,
      );
      cfg = c;
    }

get_or_create-Keeps :
    (m : StreamManager) (now : ℕ) (id : String) → Bounded m → Keeps m id (get_or_create m now id).1
unfolding get_or_create get
get_or_create-Keeps m now id b = elim (Option-cases (Table.get dec_text id m.streams)) [
  | inr (s, h) ↦
      rw (h, get_or_create)
        (put_back-Keeps m m id (touch s now) (record { held = (s, h); bounded = b; cfg = refl }))
  | inl h ↦
      let (lt, c) = make_room-fits m b in
      rw (h, get_or_create) (add_stream-Keeps m (make_room m) now id c lt)
]

length-remove_all-le :
    (ids : List String) (m : Table String Stream) → length (remove_all ids m) ≤ length m
unfolding remove_all
length-remove_all-le [] m = omega arith
length-remove_all-le (id ∷ ids) m =
    omega (arith, length-remove_all-le ids (Table.remove dec_text id m), length-remove-le id m)

-- The calls of the backend and the reaper.
pub data Use : Type 0 where
  publishes : ℕ → String → String → Use
  completes : ℕ → String → Use
  fails : ℕ → String → String → Use
  subscribes : ℕ → String → Use
  privates : ℕ → String → Use
  deletes : String → Use
  reaps : ℕ → Use

unfoldable pub apply : StreamManager → Use → StreamManager
apply m (publishes now id text) = (backend_publish m now id text).1
apply m (completes now id) = backend_complete m now id
apply m (fails now id message) = backend_fail m now id message
apply m (subscribes now id) = (get_or_create m now id).1
apply m (privates now id) = set_private m now id
apply m (deletes id) = (delete m id).1
apply m (reaps now) = (reap m now).1

unfoldable pub apply_all : StreamManager → List Use → StreamManager
apply_all m [] = m
apply_all m (u ∷ us) = apply_all (apply m u) us

apply-Bounded :
    (m : StreamManager) (u : Use) → Bounded m → Bounded (apply m u) × ((apply m u).cfg ≡ m.cfg)
unfolding apply incr_published backend_publish backend_complete backend_fail set_private with_stream
    delete reap
apply-Bounded m (publishes now id text) b =
    let k =
      put_back-Keeps m _ id (publish (get_or_create m now id).0 now text).1
        (get_or_create-Keeps m now id b) in
    (unfold put_back in k.bounded, unfold put_back in k.cfg)
apply-Bounded m (completes now id) b =
    let k =
      put_back-Keeps m _ id (Stream.complete (get_or_create m now id).0 now)
        (get_or_create-Keeps m now id b) in
    (k.bounded, k.cfg)
apply-Bounded m (fails now id message) b =
    let k =
      put_back-Keeps m _ id (Stream.fail (get_or_create m now id).0 now message)
        (get_or_create-Keeps m now id b) in
    (k.bounded, k.cfg)
apply-Bounded m (subscribes now id) b = let k = get_or_create-Keeps m now id b in (k.bounded, k.cfg)
apply-Bounded m (privates now id) b =
    let s = (get_or_create m now id).0 in
    let k = put_back-Keeps m _ id (record s { private = true }) (get_or_create-Keeps m now id b) in
    (k.bounded, k.cfg)
apply-Bounded m (deletes id) b = (omega (arith, length-remove-le id m.streams, b), refl)
apply-Bounded m (reaps now) b =
    (omega (arith, length-remove_all-le (dead_ids m.cfg now m.streams) m.streams, b), refl)

apply_all-Bounded :
    (m : StreamManager) (us : List Use)
    → Bounded m
    → Bounded (apply_all m us) × ((apply_all m us).cfg ≡ m.cfg)
unfolding apply_all
apply_all-Bounded m [] b = (b, refl)
apply_all-Bounded m (u ∷ us) b =
    let (b1, c1) = apply-Bounded m u b in
    let (b2, c2) = apply_all-Bounded (apply m u) us b1 in (b2, c2 ∙ c1)

-- Whatever is published, completed, failed, subscribed to, deleted or reaped, the registry holds no
-- more streams than it is configured to, or one if it is configured to hold none.
pub registry-Bounded :
    (cfg : ManagerConfig) (us : List Use)
    → length (apply_all (with_config cfg) us).streams ≤ max cfg.max_streams 1
registry-Bounded cfg us =
    let (b, c) = apply_all-Bounded (with_config cfg) us (omega arith) in
    subst
      (λ (x : ManagerConfig). length (apply_all (with_config cfg) us).streams ≤ max x.max_streams 1)
      c b
