-- ===== src/Protocols/Parser/Reported.antt =====
-- What a parser reports of a capture's bytes: keywords of its vocabulary and nothing else.
use securemailscope.Base.{
  ℕ, ◌≡◌, refl, true, ◌==◌, List, [], ◌∷◌, ◌++◌, Option, none, some, All, All-append, length, leb,
  arith, if_intro, ◌⊎◌, inl,
}
use securemailscope.Evidence.{Direction, client_to_server, server_to_client, WarningCode}
use securemailscope.Network.Flows.{Text}
use securemailscope.Protocols.Cursor.{StreamLine}
use securemailscope.Protocols.Redaction.{is_in}
use securemailscope.Protocols.Redaction.Safe.{Each, IsKeyword, IsMechanism}
use securemailscope.Protocols.Parser.{
  ProtocolEventType, ProtocolEvent, Details, PendingCommand, AuthenticationObservation,
  ProtocolParser, plain, event_of, warn, suppress, add_event, record_event, drop_pending, note_gap,
  auth_observation, upgrade_state, is_upgraded, record_auth, set_last, note_continuations,
}

-- A protocol's vocabulary: its verbs, what its reply codes look like, and the verbs that ask for the
-- server's capabilities.
module _ (verbs : List Text) (IsCode : Text → Type 0) (asking : List Text) where
  -- The events that may quote keywords.
  abbrev pub MayQuote : ProtocolEventType → Option Text → Type 0
  MayQuote ProtocolEventType.capability_advertisement verb = Unit
  MayQuote ProtocolEventType.upgrade_advertised verb = Unit
  MayQuote ProtocolEventType.server_reply (some verb) = is_in verb asking ≡ true
  MayQuote _ _ = ⊥

  -- A line of the client is never quoted, and one of the server only where it may list
  -- capabilities.
  abbrev pub Position :
      ProtocolEventType → Direction → Option Text → Option Text → List Text → Type 0
  Position kind client_to_server verb code capabilities = (code ≡ none) × (capabilities ≡ [])
  Position kind server_to_client verb code capabilities = (capabilities ≡ []) ⊎ MayQuote kind verb

  pub silent-Position :
      (kind : ProtocolEventType) (d : Direction) (verb : Option Text) → Position kind d verb none []
  silent-Position kind client_to_server verb = (refl, refl)
  silent-Position kind server_to_client verb = inl refl

  abbrev pub IsVerb : Text → Type 0
  IsVerb text = is_in text verbs ≡ true

  -- An event tells no more than a verb, a code and keywords, these only where they may stand; it has
  -- no tag.
  pub record IsSafe (e : ProtocolEvent) : Type 0 where
    pub verb : Each IsVerb e.command_verb
    pub code : Each IsCode e.reply_code
    pub keywords : All IsKeyword e.capabilities
    pub no_tag : e.tag ≡ none
    pub position : Position e.event_type e.direction e.command_verb e.reply_code e.capabilities

  pub record AreSafe (kind : ProtocolEventType) (direction : Direction) (d : Details) : Type 0 where
    pub verb : Each IsVerb d.command_verb
    pub code : Each IsCode d.reply_code
    pub keywords : All IsKeyword d.capabilities
    pub no_tag : d.tag ≡ none
    pub position : Position kind direction d.command_verb d.reply_code d.capabilities

  abbrev pub IsSafeOption : Option ProtocolEvent → Type 0
  IsSafeOption none = Unit
  IsSafeOption (some e) = IsSafe e

  abbrev pub IsSafeAuth : AuthenticationObservation → Type 0
  IsSafeAuth a = IsVerb a.command_verb × IsMechanism a.mechanism

  abbrev pub IsSafeCommand : PendingCommand → Type 0
  IsSafeCommand c = IsVerb c.verb × IsMechanism c.mechanism

  -- Everything that a parser reports, or may come to report.
  pub record IsRedacted (p : ProtocolParser) : Type 0 where
    pub events : All IsSafe p.events
    pub auth : All IsSafeAuth p.auth
    pub pending : All IsSafeCommand p.pending
    pub response_code : Each IsCode p.response_code
    pub advertised : IsSafeOption p.advertised_event
    pub requested : IsSafeOption p.requested_event
    pub response : IsSafeOption p.response_event

  event_of-IsSafe :
      (kind : ProtocolEventType) (d : Direction) (line : StreamLine) (details : Details)
      → AreSafe kind d details
      → IsSafe (event_of kind d line details)
  unfolding event_of
  event_of-IsSafe kind d line details h = record {
    verb = h.verb;
    code = h.code;
    keywords = h.keywords;
    no_tag = h.no_tag;
    position = h.position;
  }

  suppress-IsRedacted : (p : ProtocolParser) → IsRedacted p → IsRedacted (suppress p)
  unfolding suppress warn
  suppress-IsRedacted p h = ground arith

  -- Adding an event keeps the parser redacted, and its value may be kept.
  abbrev Added : Option ProtocolEvent × ProtocolParser → Type 0
  Added r = IsSafeOption r.0 × IsRedacted r.1

  pub add_event-IsRedacted :
      (max_events : ℕ) (p : ProtocolParser) (kind : ProtocolEventType) (d : Direction)
      (line : StreamLine) (details : Details)
      → AreSafe kind d details
      → IsRedacted p
      → IsSafeOption (add_event max_events p kind d line details).0
        × IsRedacted (add_event max_events p kind d line details).1
  unfolding add_event
  add_event-IsRedacted max_events p kind d line details safe h =
      if_intro Added (leb max_events (length p.events)) (λ _. (tt, suppress-IsRedacted p h))
        (λ _.
          let e = event_of-IsSafe kind d line details safe in
          (
            e,
            record {
              events =
                  All-append IsSafe p.events (event_of kind d line details ∷ []) h.events (e, tt);
              auth = h.auth;
              pending = h.pending;
              response_code = h.response_code;
              advertised = h.advertised;
              requested = h.requested;
              response = h.response;
            },
          ))

  pub record_event-IsRedacted :
      (max_events : ℕ) (p : ProtocolParser) (kind : ProtocolEventType) (d : Direction)
      (line : StreamLine) (details : Details)
      → AreSafe kind d details
      → IsRedacted p
      → IsRedacted (record_event max_events p kind d line details)
  unfolding record_event
  record_event-IsRedacted max_events p kind d line details safe h =
      (add_event-IsRedacted max_events p kind d line details safe h).1

  pub plain-AreSafe : (kind : ProtocolEventType) (d : Direction) → AreSafe kind d plain
  plain-AreSafe kind d = record {
    verb = tt;
    code = tt;
    keywords = tt;
    no_tag = refl;
    position = silent-Position kind d none;
  }

  drop_pending-IsRedacted :
      (max_events : ℕ) (p : ProtocolParser) (commands : List PendingCommand)
      → IsRedacted p
      → IsRedacted (drop_pending max_events p commands)
  unfolding drop_pending warn
  drop_pending-IsRedacted max_events p [] h = h
  drop_pending-IsRedacted max_events p (c ∷ commands) h = record {
    events = h.events;
    auth = h.auth;
    pending = tt;
    response_code = h.response_code;
    advertised = h.advertised;
    requested = h.requested;
    response = h.response;
  }

  pub note_gap-IsRedacted :
      (max_events : ℕ) (p : ProtocolParser) (d : Direction) (line : StreamLine)
      → IsRedacted p
      → IsRedacted (note_gap max_events p d line)
  unfolding note_gap
  note_gap-IsRedacted max_events p d line h = drop_pending-IsRedacted max_events _ _ (
      record_event-IsRedacted max_events (record p { gap_seen = true })
        ProtocolEventType.gap_encountered d line
        (record plain { end_offset = some line.start_offset })
        (record {
          verb = tt;
          code = tt;
          keywords = tt;
          no_tag = refl;
          position = silent-Position ProtocolEventType.gap_encountered d none;
        })
        (ground arith))

  with_auth :
      (p : ProtocolParser) (auth : List AuthenticationObservation)
      → All IsSafeAuth auth
      → IsRedacted p
      → IsRedacted (record p { auth = auth })
  with_auth p auth a h = record {
    events = h.events;
    auth = a;
    pending = h.pending;
    response_code = h.response_code;
    advertised = h.advertised;
    requested = h.requested;
    response = h.response;
  }

  pub warned : (p : ProtocolParser) (code : WarningCode) → IsRedacted p → IsRedacted (warn p code)
  unfolding warn
  warned p code h = ground (arith, h)

  pub record_auth-IsRedacted :
      (p : ProtocolParser) (d : Direction) (line : StreamLine) (verb : Text)
      (mechanism : Option Text)
      → IsVerb verb
      → IsMechanism mechanism
      → IsRedacted p
      → IsRedacted (record_auth p d line verb mechanism)
  unfolding record_auth warn auth_observation
  record_auth-IsRedacted p d line verb mechanism v m h =
      let auth =
        All-append IsSafeAuth p.auth (auth_observation p d line verb mechanism ∷ []) h.auth
          ((v, m), tt) in
      if_intro
        (λ (q : ProtocolParser).
          IsRedacted
            (record q { auth = p.auth ++ (auth_observation p d line verb mechanism ∷ []) }))
        (is_upgraded (upgrade_state p)) (λ _. with_auth _ _ auth h)
        (λ _. with_auth _ _ auth (warned p _ h))

  set_last-safe :
      (n : ℕ) (auth : List AuthenticationObservation)
      → All IsSafeAuth auth
      → All IsSafeAuth (set_last n auth)
  unfolding set_last
  set_last-safe n [] h = tt
  set_last-safe n (a ∷ []) h = (h.0, tt)
  set_last-safe n (a ∷ b ∷ auth) h = (h.0, set_last-safe n (b ∷ auth) h.1)

  pub note_continuations-IsRedacted :
      (p : ProtocolParser) (n : ℕ) → IsRedacted p → IsRedacted (note_continuations p n)
  unfolding note_continuations
  note_continuations-IsRedacted p n h =
      if_intro IsRedacted (n == 0) (λ _. h) (λ _. with_auth p _ (set_last-safe n p.auth h.auth) h)
