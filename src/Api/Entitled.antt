-- ===== src/Api/Entitled.antt =====
-- `subscribe` and `subscribe_ws` of crates/tideline-server/src/api.rs: who may read a stream.
use tideline.Base.{
  ℕ, ◌<◌, ◌≡◌, ◌≢◌, ◌⊎◌, inl, inr, refl, sym, ap, ◌∙◌, subst, String, true, false, Option, none,
  some, arith, Option-cases, Bool-cases, dec_text, leb, if_neg,
}
use tideline.Auth.{matches}
use tideline.Manager.{get_or_create, StreamManager, is_private, subscriber_count}
use tideline.Routes.{Headers, bearer, valid_id}
use tideline.Api.{AuthConfig, AppState, ns_key}
use tideline.Api.Subscribe.{
  TicketCrates, verify_ticket, SubReply, streams, Located, refused, at, of_ticket, locate, connect,
  authed, resume, subscribe, presents, subscribe_ws,
}
use tideline.Api.Tickets.{Signed, verify_ticket-Signed}

-- A reader may have this stream: it is the one asked for, and not private, or a ticket names it.
abbrev pub Entitled :
    TicketCrates
    → AuthConfig
    → ℕ
    → StreamManager
    → Option String
    → Option String
    → String
    → String
    → Type 0
Entitled t auth secs m ns ticket id key =
    ((ticket ≡ none) × (key ≡ ns_key ns id) × (is_private m key ≡ false))
    ⊎ ((text : String) × (secret : String) × (n : String) × (sid : String) × (ticket ≡ some text)
        × (auth.verify_secret ≡ some secret)
        × (key ≡ ns_key (some n) sid)
        × Signed t secs secret text n sid)

abbrev key_in : Located → String
key_in (refused r) = ""
key_in (at key) = key

locate-Entitled :
    (t : TicketCrates) (auth : AuthConfig) (secs : ℕ) (m : StreamManager)
    (ns ticket : Option String) (id key : String)
    → locate t auth secs m ns ticket id ≡ at key
    → Entitled t auth secs m ns ticket id key
unfolding locate of_ticket
locate-Entitled t auth secs m ns none id key h = elim (Bool-cases (is_private m (ns_key ns id))) [
  | inl a ↦ absurd (ground (arith, a, h))
  | inr a ↦
      let same : ns_key ns id ≡ key = ap key_in (rw (a, locate) at h) in
      inl (refl, sym same, ap (is_private m) (sym same) ∙ a)
]
locate-Entitled t auth secs m ns (some text) id key h = elim (Option-cases auth.verify_secret) [
  | inl a ↦ absurd (ground (arith, a, h))
  | inr (secret, a) ↦ elim (Option-cases (verify_ticket t secs secret text)) [
    | inl b ↦ absurd (ground (arith, a, b, h))
    | inr ((n, sid), b) ↦ inr (
      text,
      secret,
      n,
      sid,
      refl,
      a,
      sym (ap key_in (rw (a, b, locate) at h)),
      verify_ticket-Signed t secs secret text n sid b,
    )
  ]
]

abbrev key_of_reply : SubReply → String
key_of_reply (streams key from) = key
key_of_reply _ = ""

connect-streams :
    (st : AppState) (opens : StreamManager → String → StreamManager) (transport : String) (from : ℕ)
    (l : Located) (key : String) (start : ℕ)
    → ((r : SubReply) → l ≡ refused r → r ≢ streams key start)
    → (connect st opens transport from l).0 ≡ streams key start
    → (l ≡ at key) × (subscriber_count st.backend key < st.backend.cfg.max_subscribers_per_stream)
unfolding connect
connect-streams st opens transport from (refused r) key start never h = absurd (never r refl h)
connect-streams st opens transport from (at k) key start never h =
    elim (Bool-cases
      (leb st.backend.cfg.max_subscribers_per_stream (subscriber_count st.backend k))) [
        | inl a ↦ absurd (ground (arith, a, h))
        | inr a ↦
            let same : k ≡ key = ap key_of_reply (rw (a, connect) at h) in
            let room : subscriber_count st.backend k < st.backend.cfg.max_subscribers_per_stream =
              ground (arith, a) in
            (
              ap at same,
              subst (λ x. subscriber_count st.backend x < st.backend.cfg.max_subscribers_per_stream)
                  same room,
            )
      ]

-- A refusal is not a stream.
locate-refuses :
    (t : TicketCrates) (auth : AuthConfig) (secs : ℕ) (m : StreamManager)
    (ns ticket : Option String) (id key : String) (start : ℕ) (r : SubReply)
    → locate t auth secs m ns ticket id ≡ refused r
    → r ≢ streams key start
unfolding locate of_ticket
locate-refuses t auth secs m ns none id key start r h e =
    elim (Bool-cases (is_private m (ns_key ns id))) [
      | inl a ↦ ground (arith, a, h, e)
      | inr a ↦ ground (arith, a, h, e)
    ]
locate-refuses t auth secs m ns (some text) id key start r h e =
    elim (Option-cases auth.verify_secret) [
      | inl a ↦ ground (arith, a, h, e)
      | inr (secret, a) ↦ elim (Option-cases (verify_ticket t secs secret text)) [
        | inl b ↦ ground (arith, a, b, h, e)
        | inr ((n, sid), b) ↦ ground (arith, a, b, h, e)
      ]
    ]

-- What a request comes to once the id and the token are accepted.
located-Entitled :
    (t : TicketCrates) (auth : AuthConfig) (secs : ℕ) (st : AppState)
    (opens : StreamManager → String → StreamManager) (transport : String) (from : ℕ)
    (ns ticket : Option String) (id key : String) (start : ℕ)
    → (connect st opens transport from (locate t auth secs st.backend ns ticket id)).0
      ≡ streams key start
    → Entitled t auth secs st.backend ns ticket id key
      × (subscriber_count st.backend key < st.backend.cfg.max_subscribers_per_stream)
located-Entitled t auth secs st opens transport from ns ticket id key start h =
    let (found, room) =
      connect-streams st opens transport from (locate t auth secs st.backend ns ticket id) key start
        (λ r e. locate-refuses t auth secs st.backend ns ticket id key start r e) h in
    (locate-Entitled t auth secs st.backend ns ticket id key found, room)

matches-same :
    (want : String) (given : Option String) → matches (some want) given ≡ true → given ≡ some want
unfolding matches
matches-same want none h = absurd (ground (arith, h))
matches-same want (some p) h = elim (dec_text want p) [
  | yes e ↦ ap some (sym e)
  | no n ↦ absurd (ground (arith, h, if_neg (dec_text want p) n true false))
]

-- The credential of a reader: no token is configured, or this one is presented.
abbrev pub Carries : Option String → Option String → Type 0
Carries configured given = (token : String) → configured ≡ some token → given ≡ some token

authed-Carries :
    (o : Option String) (headers : Headers) → authed o headers ≡ true → Carries o (bearer headers)
unfolding authed
authed-Carries none headers h token e = absurd (ground (arith, e))
authed-Carries (some want) headers h token e = matches-same want (bearer headers) h ∙ e

presents-Carries : (o given : Option String) → presents o given ≡ true → Carries o given
unfolding presents
presents-Carries none given h token e = absurd (ground (arith, e))
presents-Carries (some want) given h token e = matches-same want given h ∙ e

-- A request over SSE is answered with the stream under a key only if it presents the token that is configured,
-- the stream has room for another reader, and the reader is entitled: without a ticket the key is that of the
-- namespace and the id asked for, and the stream is not private; with one, the ticket carries the MAC of its payload
-- under the configured secret, the payload has not expired, and the key is that of the stream it names.
pub subscribe-Entitled :
    (t : TicketCrates) (auth : AuthConfig) (secs now : ℕ) (st : AppState) (id : String)
    (from : Option ℕ) (ns ticket : Option String) (headers : Headers) (last : Option ℕ)
    (key : String) (start : ℕ)
    → (subscribe t auth secs now st id from ns ticket headers last).0 ≡ streams key start
    → Carries auth.subscribe_token (bearer headers)
      × Entitled t auth secs st.backend ns ticket id key
      × (subscriber_count st.backend key < st.backend.cfg.max_subscribers_per_stream)
unfolding subscribe
subscribe-Entitled t auth secs now st id from ns ticket headers last key start h =
    elim (Bool-cases (valid_id id)) [
      | inr v ↦ absurd (ground (arith, v, h))
      | inl v ↦ elim (Bool-cases (authed auth.subscribe_token headers)) [
        | inr a ↦ absurd (ground (arith, v, a, h))
        | inl a ↦
            let (entitled, room) =
              located-Entitled t auth secs st (λ m k. (get_or_create m now k).1) "sse"
                (resume last from) ns ticket id key start (rw (v, a, subscribe) at h) in
            (authed-Carries auth.subscribe_token headers a, entitled, room)
      ]
    ]

-- A request over a WebSocket is answered with the stream under a key only if its query presents the
-- token that is configured, the stream has room for another reader, and the reader is entitled: without a
-- ticket the key is that of the namespace and the id asked for, and the stream is not private; with one,
-- the ticket carries the MAC of its payload under the configured secret, the payload has not expired, and
-- the key is that of the stream it names.
pub subscribe_ws-Entitled :
    (t : TicketCrates) (auth : AuthConfig) (secs : ℕ) (st : AppState) (id : String)
    (from : Option ℕ) (token ns ticket : Option String) (key : String) (start : ℕ)
    → (subscribe_ws t auth secs st id from token ns ticket).0 ≡ streams key start
    → Carries auth.subscribe_token token
      × Entitled t auth secs st.backend ns ticket id key
      × (subscriber_count st.backend key < st.backend.cfg.max_subscribers_per_stream)
unfolding subscribe_ws
subscribe_ws-Entitled t auth secs st id from token ns ticket key start h =
    elim (Bool-cases (valid_id id)) [
      | inr v ↦ absurd (ground (arith, v, h))
      | inl v ↦ elim (Bool-cases (presents auth.subscribe_token token)) [
        | inr a ↦ absurd (ground (arith, v, a, h))
        | inl a ↦
            let (entitled, room) =
              located-Entitled t auth secs st (λ m k. m) "ws" (resume none from) ns ticket id key
                start (rw (v, a, subscribe_ws) at h) in
            (presents-Carries auth.subscribe_token token a, entitled, room)
      ]
    ]
