-- ===== src/Stream/Replay.antt =====
-- crates/tideline-server/src/stream.rs: what a reader is sent, from the snapshot and from the channel.
use tideline.Base.{
  ℕ, suc, ◌+◌, ◌≤◌, ◌≡◌, refl, sym, ap, ◌∙◌, subst, String, false, none, List, [], ◌∷◌, ◌++◌, map,
  length, length-append, max, arith, if◌then◌else◌, append_assoc, append-nil,
}
use tideline.Base.{zero, ◌-◌, drop}
use tideline.Stream.{
  trim, Token, Stream, Snapshot, Received, token, gap, got, publish, live, ending, read_stream,
  snapshot_from,
}
use tideline.Stream.Buffer.{From, IsBuffer, snapshot_from-From, trim_drops, length-drop}

-- The tokens that publishing these texts makes.
unfoldable pub tokens_of : ℕ → List String → List Token
tokens_of n [] = []
tokens_of n (text ∷ rest) = record { offset = n; text = text } ∷ tokens_of (n + 1) rest

unfoldable pub publish_all : Stream → ℕ → List String → Stream
publish_all s now [] = s
publish_all s now (text ∷ rest) = publish_all (publish s now text).1 now rest

sent_publish_all :
    (s : Stream) (now : ℕ) (texts : List String)
    → ((publish_all s now texts).sent ≡ s.sent ++ map token (tokens_of s.inner.next_offset texts))
      × ((publish_all s now texts).inner.next_offset ≡ s.inner.next_offset + length texts)
      × ((publish_all s now texts).inner.complete ≡ s.inner.complete)
      × ((publish_all s now texts).inner.error ≡ s.inner.error)
unfolding publish_all tokens_of publish
sent_publish_all s now [] = (sym (append-nil s.sent), omega arith, refl, refl)
sent_publish_all s now (text ∷ rest) =
    let (a, b, c, d) = sent_publish_all (publish s now text).1 now rest in
    (a ∙ append_assoc s.sent _ _, omega (arith, b), c, d)

tokens_of-From : (n : ℕ) (texts : List String) → From n (tokens_of n texts)
unfolding tokens_of
tokens_of-From n [] = tt
tokens_of-From n (text ∷ rest) =
    (refl, subst (λ m. From m (tokens_of (n + 1) rest)) (omega arith) (tokens_of-From (n + 1) rest))

length-tokens_of : (n : ℕ) (texts : List String) → length (tokens_of n texts) ≡ length texts
unfolding tokens_of
length-tokens_of n [] = refl
length-tokens_of n (text ∷ rest) = ap suc (length-tokens_of (n + 1) rest)

append-From : (i : ℕ) (xs ys : List Token) → From i xs → From (i + length xs) ys → From i (xs ++ ys)
append-From i [] ys h k = subst (λ j. From j ys) (omega arith) k
append-From i (x ∷ xs) ys h k =
    (h.0, append-From (suc i) xs ys h.1 (subst (λ j. From j ys) (omega arith) k))

abbrev pub received : List Token → List Received
received [] = []
received (t ∷ ts) = got (token t) ∷ received ts

-- Live tokens below the boundary were in the snapshot, and are dropped.
live_before :
    (total n : ℕ) (texts : List String) (rx : List Received)
    → n + length texts ≤ total
    → live total (received (tokens_of n texts) ++ rx) ≡ live total rx
unfolding live tokens_of
live_before total n [] rx le = refl
live_before total n (text ∷ rest) rx le =
    ground (arith, live_before total (n + 1) rest rx (omega arith))

-- Live tokens from the boundary on are sent.
live_after :
    (total n : ℕ) (texts : List String)
    → total ≤ n
    → live total (received (tokens_of n texts)) ≡ map token (tokens_of n texts)
unfolding live tokens_of
live_after total n [] le = refl
live_after total n (text ∷ rest) le = ground (arith, live_after total (n + 1) rest (omega arith))

received-append : (xs ys : List Token) → received (xs ++ ys) ≡ received xs ++ received ys
received-append [] ys = refl
received-append (x ∷ xs) ys = ap (λ rest. got (token x) ∷ rest) (received-append xs ys)

map_token-append : (xs ys : List Token) → map token xs ++ map token ys ≡ map token (xs ++ ys)
map_token-append [] ys = refl
map_token-append (x ∷ xs) ys = ap (λ rest. token x ∷ rest) (map_token-append xs ys)

read_open :
    (snap : Snapshot) (rx : List Received)
    → snap.error ≡ none
    → snap.complete ≡ false
    → read_stream snap rx
      ≡ (if snap.gap then gap ∷ [] else []) ++ (map token snap.tokens ++ live snap.total rx)
unfolding read_stream ending
read_open snap rx a b = rw (a, b)

read_joined :
    (s1 : Stream) (from n : ℕ) (between afterwards : List String)
    → s1.inner.complete ≡ false
    → s1.inner.error ≡ none
    → n + length between ≤ s1.inner.next_offset
    → read_stream
        (snapshot_from s1 from)
        (received (tokens_of n between ++ tokens_of s1.inner.next_offset afterwards))
      ≡ (if (snapshot_from s1 from).gap then gap ∷ [] else [])
        ++ map token ((snapshot_from s1 from).tokens ++ tokens_of s1.inner.next_offset afterwards)
unfolding snapshot_from
read_joined s1 from n between afterwards c e le =
    let snap = snapshot_from s1 from in
    let old = tokens_of n between in
    let new = tokens_of s1.inner.next_offset afterwards in
    let first = if snap.gap then gap ∷ [] else [] in
    let joined : live s1.inner.next_offset (received (old ++ new)) ≡ map token new =
      ap (live s1.inner.next_offset) (received-append old new)
      ∙ live_before s1.inner.next_offset n between (received new) le
      ∙ live_after s1.inner.next_offset s1.inner.next_offset afterwards (omega arith) in
    read_open snap (received (old ++ new)) e c
    ∙ ap (λ l. first ++ (map token snap.tokens ++ l)) joined
    ∙ ap (λ l. first ++ l) (map_token-append snap.tokens new)

tokens_of-append :
    (n m : ℕ) (xs ys : List String)
    → m ≡ n + length xs
    → tokens_of n xs ++ tokens_of m ys ≡ tokens_of n (xs ++ ys)
unfolding tokens_of
tokens_of-append n m [] ys h = ap (λ k. tokens_of k ys) (omega arith)
tokens_of-append n m (x ∷ xs) ys h =
    ap (λ l. record { offset = n; text = x } ∷ l) (tokens_of-append (n + 1) m xs ys (omega arith))

-- Dropping twice, with more behind the second time.
drop-append :
    (k m : ℕ) (xs ys : List Token)
    → k ≤ length xs
    → drop m (drop k xs ++ ys) ≡ drop (k + m) (xs ++ ys)
drop-append zero m xs ys h = ap (λ n. drop n (xs ++ ys)) (omega arith)
drop-append (suc k) m [] ys h = absurd (omega arith)
drop-append (suc k) m (x ∷ xs) ys h =
    let next : suc k + m ≡ suc (k + m) = omega arith in
    rw next (drop-append k m xs ys (omega arith))

-- After publishing, the buffer is what it was with the new tokens behind, but for some at the front.
tokens_publish_all :
    (s : Stream) (now : ℕ) (texts : List String)
    → (k : ℕ) × (k ≤ length (s.inner.tokens ++ tokens_of s.inner.next_offset texts))
      × ((publish_all s now texts).inner.tokens
          ≡ drop k (s.inner.tokens ++ tokens_of s.inner.next_offset texts))
unfolding publish_all tokens_of publish
tokens_publish_all s now [] = (0, omega arith, sym (append-nil s.inner.tokens))
tokens_publish_all s now (text ∷ rest) =
    let t : Token = record { offset = s.inner.next_offset; text = text } in
    let ts = s.inner.tokens ++ t ∷ [] in
    let behind = tokens_of (s.inner.next_offset + 1) rest in
    let n = length ts - s.inner.max_buffer in
    let (k, inside, same) = tokens_publish_all (publish s now text).1 now rest in
    let trimmed : trim s.inner.max_buffer ts ≡ drop n ts = trim_drops s.inner.max_buffer ts in
    let shape = append_assoc s.inner.tokens (t ∷ []) behind in
    let size : length (s.inner.tokens ++ t ∷ behind) ≡ length ts + length behind =
      ap length (sym shape) ∙ length-append ts behind in
    let inside' : k ≤ length (drop n ts ++ behind) =
      subst (λ l. k ≤ length (l ++ behind)) trimmed inside in
    (
      n + k,
      omega (arith, size, inside', length-append (drop n ts) behind, length-drop n ts),
      same
          ∙ ap (λ l. drop k (l ++ behind)) trimmed
          ∙ drop-append n k ts behind (omega arith)
          ∙ ap (drop (n + k)) shape,
    )

-- A reader of an open stream misses nothing and sees nothing twice. It subscribes, then takes its
-- snapshot, and producers publish between the two and after. The signals that reach it are those sent
-- since it subscribed: the tokens of these texts. What it is sent is a gap signal, if the snapshot has
-- a gap, and then, of the tokens that the buffer held and those published since, texts included, all
-- from the wanted offset (or from the oldest retained one) up to the newest, each once and in order.
pub read_stream_seamless :
    (s : Stream) (now from : ℕ) (between afterwards : List String)
    (b : IsBuffer (publish_all s now between).inner)
    → s.inner.complete ≡ false
    → s.inner.error ≡ none
    → from ≤ (publish_all s now between).inner.next_offset
    → (j : ℕ) × (ts : List Token) × ((publish_all (publish_all s now between) now afterwards).sent
        ≡ s.sent ++ map token (tokens_of s.inner.next_offset (between ++ afterwards)))
      × (read_stream
            (snapshot_from (publish_all s now between) from)
            (received (tokens_of s.inner.next_offset (between ++ afterwards)))
          ≡ (if (snapshot_from (publish_all s now between) from).gap then gap ∷ [] else [])
            ++ map token ts)
      × (ts ≡ drop j (s.inner.tokens ++ tokens_of s.inner.next_offset (between ++ afterwards)))
      × From (max from b.start) ts
      × (max from b.start + length ts
          ≡ (publish_all (publish_all s now between) now afterwards).inner.next_offset)
unfolding snapshot_from
read_stream_seamless s now from between afterwards b open1 open2 le =
    let s1 = publish_all s now between in
    let (sent1, next1, complete1, error1) = sent_publish_all s now between in
    let (sent2, next2, _, _) = sent_publish_all s1 now afterwards in
    let old = tokens_of s.inner.next_offset between in
    let new = tokens_of s1.inner.next_offset afterwards in
    let all = tokens_of s.inner.next_offset (between ++ afterwards) in
    let joined : old ++ new ≡ all =
      tokens_of-append s.inner.next_offset s1.inner.next_offset between afterwards next1 in
    let (retained, run, until, _) = snapshot_from-From s1 from b le in
    let snap = snapshot_from s1 from in
    let m = from - b.start in
    let (k, inside, buffer) = tokens_publish_all s now between in
    let front = s.inner.tokens ++ old in
    let kept : snap.tokens ≡ drop m (drop k front) = retained ∙ ap (drop m) buffer in
    let size = ap length buffer ∙ length-drop k front in
    let whole : snap.tokens ++ new ≡ drop (k + m) (s.inner.tokens ++ all) =
      ap (λ l. l ++ new) kept
      ∙ drop-append m 0 (drop k front) new (omega (arith, size, length-drop k front, b.ends))
      ∙ ap (λ n. drop n (drop k front ++ new)) (omega arith)
      ∙ drop-append k m front new inside
      ∙ ap (drop (k + m)) (append_assoc s.inner.tokens old new)
      ∙ ap (λ l. drop (k + m) (s.inner.tokens ++ l)) joined in
    (
      k + m,
      snap.tokens ++ new,
      sent2
          ∙ ap (λ l. l ++ map token new) sent1
          ∙ append_assoc s.sent (map token old) (map token new)
          ∙ ap (λ l. s.sent ++ l) (map_token-append old new)
          ∙ ap (λ l. s.sent ++ map token l) joined,
      ap (λ l. read_stream snap (received l)) (sym joined)
          ∙ read_joined s1 from s.inner.next_offset between afterwards (complete1 ∙ open1)
              (error1 ∙ open2) (omega (arith, next1)),
      whole,
      append-From (max from b.start) snap.tokens new run
          (subst (λ j. From j new) (sym until) (tokens_of-From s1.inner.next_offset afterwards)),
      omega (
        arith,
        until,
        next2,
        length-append snap.tokens new,
        length-tokens_of s1.inner.next_offset afterwards,
      ),
    )
