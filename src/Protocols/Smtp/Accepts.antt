-- ===== src/Protocols/Smtp/Accepts.antt =====
-- When STARTTLS counts as accepted.
use securemailscope.Base.{
  ℕ, ◌+◌, ◌≡◌, ◌≢◌, refl, sym, ◌∙◌, ap, true, false, ◌&&◌, ◌||◌, not, List, [], ◌∷◌, ◌++◌, Option,
  none, some, take, drop, arith, if_intro, inl, inr, ◌⊎◌, not-false,
}
use securemailscope.Evidence.{Direction, client_to_server, server_to_client}
use securemailscope.Network.Flows.{Text, eq_text}
use securemailscope.Network.Flows.Identity.{eq_text_iff}
use securemailscope.Protocols.Cursor.{StreamLine}
use securemailscope.Protocols.Dialogue.{DirectedLine}
use securemailscope.Protocols.Redaction.{safe_reply_code}
use securemailscope.Protocols.Redaction.Keywords.{data_verb}
use securemailscope.Protocols.Parser.{
  accepted, PendingCommand, usable, warn, suppress, add_event, record_event, note_gap,
  mark_negotiation_unsafe,
}
use securemailscope.Protocols.Smtp.{SmtpParser, code_220, code_354, code_334, span_of, event}
use securemailscope.Protocols.Smtp.Server.{
  resolve_upgrade, final_reply, reply_to, complete_reply, separated, coded, server_line,
}
use securemailscope.Protocols.Smtp.Run.{line_step, step}
use securemailscope.Protocols.Smtp.Leaves.{
  Leaves, outcome_of, unusable-Leaves, client_line-Leaves, ordinary_reply-Leaves,
  unmatched_reply-Leaves, finish_auth-Leaves, foreign_reply-Leaves, note_gap-outcome,
}

module _ (max_events : ℕ) where
  resolve_upgrade-accepts :
      (s : SmtpParser) (span : StreamLine) (code : Text)
      → let t = resolve_upgrade max_events s span code in
        outcome_of t.parser ≡ some accepted
        → (outcome_of s.parser ≡ some accepted) ⊎ ((code ≡ code_220) × (t.halt ≡ true))
  unfolding resolve_upgrade add_event suppress warn mark_negotiation_unsafe
  resolve_upgrade-accepts s span code h = ground (arith, eq_text_iff code code_220)

  -- The reply answers an upgrade command with 220, and parsing stops.
  pub record Answers (s : SmtpParser) (code : Text) (t : SmtpParser) : Type 0 where
    pub command : PendingCommand
    pub later : List PendingCommand
    pub oldest : s.parser.pending ≡ command ∷ later
    pub is_upgrade : command.is_upgrade ≡ true
    pub ready : code ≡ code_220
    pub halts : t.halt ≡ true

  -- The outcome was accepted before, or the reply accepts it.
  abbrev Justified : SmtpParser → Text → SmtpParser → Type 0
  Justified s code t =
      outcome_of t.parser ≡ some accepted → (outcome_of s.parser ≡ some accepted) ⊎ Answers s code t

  left-Justified : (s t : SmtpParser) (code : Text) → Leaves s t → Justified s code t
  left-Justified s t code l = λ h. inl (sym l.outcome ∙ h)

  final_reply-Justified :
      (s : SmtpParser) (span : StreamLine) (lines : List StreamLine) (code : Text)
      (command : PendingCommand) (later : List PendingCommand) (n : ℕ)
      → s.parser.pending ≡ command ∷ later
      → let s' = record s { parser = record s.parser { pending = later; matched_exchanges = n } } in
        Justified s code (final_reply max_events s' span lines code command)
  unfolding final_reply
  final_reply-Justified s span lines code command later n e =
      let s' : SmtpParser = record s {
        parser = record s.parser { pending = later; matched_exchanges = n };
      } in
      if_intro (Justified s code) command.is_upgrade
        (λ up h. elim (resolve_upgrade-accepts s' span code h) [
          | inl before ↦ inl before
          | inr (c, halt) ↦ inr (record {
            command = command;
            later = later;
            oldest = e;
            is_upgrade = up;
            ready = c;
            halts = halt;
          })
        ])
        (λ _.
          if_intro (Justified s code) command.is_auth
            (λ _ h. inl (sym (finish_auth-Leaves max_events s' span code).outcome ∙ h))
            (λ _ h.
              inl (sym (ordinary_reply-Leaves max_events s' span lines code command).outcome ∙ h)))

  reply_to-Justified :
      (s : SmtpParser) (span : StreamLine) (lines : List StreamLine) (code : Text)
      (pending : List PendingCommand)
      → s.parser.pending ≡ pending
      → Justified s code (reply_to max_events s span lines code pending)
  unfolding reply_to event record_event add_event suppress warn
  reply_to-Justified s span lines code [] e =
      left-Justified s _ code (unmatched_reply-Leaves max_events s span code)
  reply_to-Justified s span lines code (command ∷ later) e =
      if_intro (Justified s code) (eq_text command.verb data_verb && eq_text code code_354)
        (λ _. left-Justified s _ code (ground arith))
        (λ _.
          if_intro (Justified s code) (command.is_auth && eq_text code code_334)
            (λ _. left-Justified s _ code (ground arith))
            (λ _.
              final_reply-Justified s span lines code command later (s.parser.matched_exchanges + 1)
                e))

  -- A line of the server that accepts: no hole in front of it, and 220 in answer to the oldest
  -- command that is outstanding, which is STARTTLS.
  pub record Accepts (s : SmtpParser) (item : DirectedLine) (t : SmtpParser) : Type 0 where
    pub from_server : item.direction ≡ server_to_client
    pub no_gap : item.line.preceded_by_gap ≡ false
    pub usable_line : usable item.line ≡ true
    pub code : safe_reply_code (take 3 item.line.content) ≡ some code_220
    pub command : PendingCommand
    pub later : List PendingCommand
    pub oldest : s.parser.pending ≡ command ∷ later
    pub is_upgrade : command.is_upgrade ≡ true
    pub halts : t.halt ≡ true

  separated-Justified :
      (s : SmtpParser) (line : StreamLine) (code : Text) (separator : List ℕ)
      → Justified s code (separated max_events s line code separator)
  unfolding separated complete_reply span_of
  separated-Justified s line code separator =
      let lines = s.reply_lines ++ (line ∷ []) in
      let s' = record s { reply_lines = lines } in
      if_intro (Justified s code) (eq_text separator (45 ∷ [])) (λ _ h. inl h)
        (λ _.
          if_intro (Justified s code) (eq_text separator (32 ∷ []) || eq_text separator [])
            (λ _. completed (span_of lines))
            (λ _ h. inl (sym (foreign_reply-Leaves max_events s' line (some code)).outcome ∙ h)))
    where
      completed :
          (span : Option StreamLine)
          → let lines = s.reply_lines ++ (line ∷ []) in
            Justified s code
              (complete_reply max_events (record s { reply_lines = lines }) lines span code)
      completed none = λ h. inl h
      completed (some span) = λ h.
          let lines = s.reply_lines ++ (line ∷ []) in
          elim (reply_to-Justified (record s { reply_lines = [] }) span lines code s.parser.pending
            refl h) [
              | inl before ↦ inl before
              | inr a ↦ inr (record {
                command = a.command;
                later = a.later;
                oldest = a.oldest;
                is_upgrade = a.is_upgrade;
                ready = a.ready;
                halts = a.halts;
              })
            ]

  -- What a server line does to a parser, the code that it begins with given.
  CodeAnswers : SmtpParser → Option Text → SmtpParser → Type 0
  CodeAnswers s none t = ⊥
  CodeAnswers s (some code) t = Answers s code t

  coded-accepts :
      (s : SmtpParser) (line : StreamLine) (code : Option Text)
      → outcome_of (coded max_events s line code).parser ≡ some accepted
      → (outcome_of s.parser ≡ some accepted) ⊎ CodeAnswers s code (coded max_events s line code)
  unfolding coded CodeAnswers
  coded-accepts s line none h = inl (sym (foreign_reply-Leaves max_events s line none).outcome ∙ h)
  coded-accepts s line (some code) h =
      separated-Justified s line code (take 1 (drop 3 line.content)) h

  -- The answer that a line of the server gives.
  record Answered (s : SmtpParser) (line : StreamLine) (t : SmtpParser) : Type 0 where
    usable_line : usable line ≡ true
    code : Text
    code_is : safe_reply_code (take 3 line.content) ≡ some code
    answers : Answers s code t

  CodeAnswers-Answered :
      (s : SmtpParser) (line : StreamLine) (t : SmtpParser) (o : Option Text)
      → usable line ≡ true
      → safe_reply_code (take 3 line.content) ≡ o
      → (outcome_of s.parser ≡ some accepted) ⊎ CodeAnswers s o t
      → (outcome_of s.parser ≡ some accepted) ⊎ Answered s line t
  unfolding CodeAnswers
  CodeAnswers-Answered s line t o u e (inl before) = inl before
  CodeAnswers-Answered s line t none u e (inr a) = absurd a
  CodeAnswers-Answered s line t (some code) u e (inr a) =
      inr (record { usable_line = u; code = code; code_is = e; answers = a })

  server_line-accepts :
      (s : SmtpParser) (line : StreamLine)
      → outcome_of (server_line max_events s line).parser ≡ some accepted
      → (outcome_of s.parser ≡ some accepted) ⊎ Answered s line (server_line max_events s line)
  unfolding server_line
  server_line-accepts s line =
      if_intro
        (λ (t : SmtpParser).
          outcome_of t.parser ≡ some accepted
          → (outcome_of s.parser ≡ some accepted) ⊎ Answered s line t)
        (not (usable line))
        (λ _ h. inl (sym (unusable-Leaves max_events s server_to_client line).outcome ∙ h))
        (λ u h.
          CodeAnswers-Answered s line _ (safe_reply_code (take 3 line.content))
            (not-false (usable line) u) refl
            (coded-accepts s line (safe_reply_code (take 3 line.content)) h))

  line_step-accepts :
      (m : ℕ) (s : SmtpParser) (direction : Direction) (line : StreamLine)
      → outcome_of (line_step max_events m s direction line).parser ≡ some accepted
      → (outcome_of s.parser ≡ some accepted)
        ⊎ ((direction ≡ server_to_client)
            × Answered s line (line_step max_events m s direction line))
  unfolding line_step
  line_step-accepts m s client_to_server line h =
      inl (sym (client_line-Leaves max_events m s line).outcome ∙ h)
  line_step-accepts m s server_to_client line h = elim (server_line-accepts s line h) [
    | inl before ↦ inl before
    | inr a ↦ inr (refl, a)
  ]

  not_nil : (c : PendingCommand) (cs : List PendingCommand) → [] ≢ c ∷ cs
  not_nil c cs h = ground arith

  -- STARTTLS becomes accepted only by a usable line of the server without a hole in front of it,
  -- that begins with 220 and is the answer to the oldest command that is outstanding, which is
  -- STARTTLS; and then parsing stops.
  pub step-Accepts :
      (max_message_body_bytes : ℕ) (s : SmtpParser) (item : DirectedLine)
      → outcome_of (step max_events max_message_body_bytes s item).parser ≡ some accepted
      → (outcome_of s.parser ≡ some accepted)
        ⊎ Accepts s item (step max_events max_message_body_bytes s item)
  unfolding step
  step-Accepts m s item =
      let gapped = record s { parser = note_gap max_events s.parser item.direction item.line } in
      let noted = note_gap-outcome max_events s.parser item.direction item.line in
      if_intro
        (λ (before : SmtpParser).
          let t = line_step max_events m before item.direction item.line in
          outcome_of t.parser ≡ some accepted
          → (outcome_of s.parser ≡ some accepted) ⊎ Accepts s item t)
        item.line.preceded_by_gap
        (λ _ h. elim (line_step-accepts m gapped item.direction item.line h) [
          | inl before ↦ inl (sym noted.0 ∙ before)
          | inr (from, a) ↦
              absurd (not_nil a.answers.command a.answers.later (sym noted.1 ∙ a.answers.oldest))
        ])
        (λ no_gap h. elim (line_step-accepts m s item.direction item.line h) [
          | inl before ↦ inl before
          | inr (from, a) ↦ inr (record {
            from_server = from;
            no_gap = no_gap;
            usable_line = a.usable_line;
            code = a.code_is ∙ ap some a.answers.ready;
            command = a.answers.command;
            later = a.answers.later;
            oldest = a.answers.oldest;
            is_upgrade = a.answers.is_upgrade;
            halts = a.answers.halts;
          })
        ])
