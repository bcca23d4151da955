-- ===== src/Client/Link/Traffic.antt =====
-- What holds of the frames, the flusher and the heartbeat of a connection, in
-- crates/omniagent-cli/src/client/conn.rs, and how the steps of the flusher keep it.
use omniagent.Prelude.{
  ℕ, ◌≡◌, sym, ap, subst, ◌∙◌, Bool, true, Option, none, some, inl, inr, List, [], ◌∷◌, ◌++◌,
  append_assoc, append-nil, max, leb, Bool-cases, Member, append-Member_left, append-Member_right,
  append-Member_split,
}
use omniagent.Client.Channel.{Outgoing}
use omniagent.Client.Link.{Frame, carried, in_flight, Flusher, parked, sending, written, waiting}
use omniagent.Client.Link.Claims.{
  Within, append-Within, Upto, Extends, Extends-refl, Prefixes, Claim, WireClaims,
  WireClaims-append, Upto-lift, Prefixes-lift, WireClaims-lift,
}

module _ {V : Type 0} where
  abbrev pub FlusherClaims : List (Outgoing V) → ℕ → List (Outgoing V) → Flusher V → Type 0
  FlusherClaims history top base parked = Unit
  FlusherClaims history top base (sending run rest) = Prefixes history top base (run ++ rest)
  FlusherClaims history top base (written seq rest) =
      Upto history top seq base × Prefixes history top base rest
  FlusherClaims history top base (waiting last rest) =
      Upto history top last base × Prefixes history top base rest

  abbrev pub held : Flusher V → List (Outgoing V)
  held parked = []
  held (sending run rest) = run ++ rest
  held (written seq rest) = rest
  held (waiting last rest) = rest

  abbrev pub BeatClaims : List (Outgoing V) → ℕ → List (Outgoing V) → Option ℕ → Type 0
  BeatClaims history top base none = Unit
  BeatClaims history top base (some seq) = Upto history top seq base

  -- `base` is what is accounted for at the server; `sent` is the mark of what was written.
  pub record Traffic (history : List (Outgoing V)) (top : ℕ) (base : List (Outgoing V))
      (connected : Bool) (sent : ℕ) (flusher : Flusher V) (beat : Option ℕ) (wire : List (Frame V))
      : Type 0 where
    pub wire_known : Within (in_flight wire) history
    pub held_known : Within (held flusher) history
    pub wire_claims : WireClaims history top base wire
    pub sent_claims : connected ≡ true → Upto history top sent (base ++ in_flight wire)
    pub flusher_claims : FlusherClaims history top (base ++ in_flight wire) flusher
    pub beat_claims : BeatClaims history top (base ++ in_flight wire) beat

  in_flight-append :
      (wire : List (Frame V)) (frame : Frame V)
      → in_flight (wire ++ frame ∷ []) ≡ in_flight wire ++ carried frame
  in_flight-append [] frame = append-nil (carried frame)
  in_flight-append (first ∷ wire) frame =
      ap (λ l. carried first ++ l) (in_flight-append wire frame)
      ∙ sym (append_assoc (carried first) (in_flight wire) (carried frame))

  FlusherClaims-lift :
      (history history' : List (Outgoing V)) (top top' : ℕ)
      → Extends history top history' top'
      → (base base' : List (Outgoing V)) (flusher : Flusher V) → Within base base'
      → FlusherClaims history top base flusher
      → FlusherClaims history' top' base' flusher
  FlusherClaims-lift history history' top top' more base base' parked h c = tt
  FlusherClaims-lift history history' top top' more base base' (sending run rest) h c =
      Prefixes-lift history history' top top' more (run ++ rest) base base' h c
  FlusherClaims-lift history history' top top' more base base' (written seq rest) h c = (
    Upto-lift history history' top top' more seq base base' h c.0,
    Prefixes-lift history history' top top' more rest base base' h c.1,
  )
  FlusherClaims-lift history history' top top' more base base' (waiting last rest) h c = (
    Upto-lift history history' top top' more last base base' h c.0,
    Prefixes-lift history history' top top' more rest base base' h c.1,
  )

  BeatClaims-lift :
      (history history' : List (Outgoing V)) (top top' : ℕ)
      → Extends history top history' top'
      → (base base' : List (Outgoing V)) (beat : Option ℕ) → Within base base'
      → BeatClaims history top base beat
      → BeatClaims history' top' base' beat
  BeatClaims-lift history history' top top' more base base' none h c = tt
  BeatClaims-lift history history' top top' more base base' (some seq) h c =
      Upto-lift history history' top top' more seq base base' h c

  -- More was pushed, or more is accounted for.
  pub Traffic-lift :
      (history history' : List (Outgoing V)) (top top' : ℕ) (base base' : List (Outgoing V))
      (connected : Bool) (sent : ℕ) (flusher : Flusher V) (beat : Option ℕ) (wire : List (Frame V))
      → Extends history top history' top'
      → Within history history'
      → Within base base'
      → Traffic history top base connected sent flusher beat wire
      → Traffic history' top' base' connected sent flusher beat wire
  Traffic-lift history history' top top' base base' connected sent flusher beat wire more grow h t =
      let safe = append-Within base base' (in_flight wire) h in
      record {
        wire_known = λ x m. grow x (t.wire_known x m);
        held_known = λ x m. grow x (t.held_known x m);
        wire_claims =
            WireClaims-lift history history' top top' more wire base base' h t.wire_claims;
        sent_claims = λ on.
            Upto-lift history history' top top' more sent (base ++ in_flight wire)
              (base' ++ in_flight wire) safe (t.sent_claims on);
        flusher_claims =
            FlusherClaims-lift history history' top top' more (base ++ in_flight wire)
              (base' ++ in_flight wire) flusher safe t.flusher_claims;
        beat_claims =
            BeatClaims-lift history history' top top' more (base ++ in_flight wire)
              (base' ++ in_flight wire) beat safe t.beat_claims;
      }

  module _ (history : List (Outgoing V)) (top : ℕ) (base : List (Outgoing V)) where
    safe_grows :
        (wire : List (Frame V)) (frame : Frame V)
        → base ++ in_flight (wire ++ frame ∷ []) ≡ (base ++ in_flight wire) ++ carried frame
    safe_grows wire frame =
        ap (λ l. base ++ l) (in_flight-append wire frame)
        ∙ sym (append_assoc base (in_flight wire) (carried frame))

    -- A frame is written: what it claims is accounted for with it, and so is what the flusher goes
    -- on with.
    pub Traffic-write :
        (connected : Bool) (sent : ℕ) (flusher flusher' : Flusher V) (beat beat' : Option ℕ)
        (wire : List (Frame V)) (frame : Frame V)
        → Traffic history top base connected sent flusher beat wire
        → Within (carried frame) history
        → Within (held flusher') history
        → Claim history top ((base ++ in_flight wire) ++ carried frame) frame
        → FlusherClaims history top ((base ++ in_flight wire) ++ carried frame) flusher'
        → BeatClaims history top (base ++ in_flight wire) beat'
        → Traffic history top base connected sent flusher' beat' (wire ++ frame ∷ [])
    Traffic-write connected sent flusher flusher' beat beat' wire frame t known held' claim goes b =
        let grown = safe_grows wire frame in
        let more : Within (base ++ in_flight wire) ((base ++ in_flight wire) ++ carried frame) =
          λ x m. append-Member_left x (base ++ in_flight wire) (carried frame) m in
        record {
          wire_known = λ x m.
              elim (append-Member_split x (in_flight wire) (carried frame)
                (subst (Member x) (in_flight-append wire frame) m)) [
                  | inl l ↦ t.wire_known x l
                  | inr r ↦ known x r
                ];
          held_known = held';
          wire_claims = WireClaims-append history top base wire frame t.wire_claims claim;
          sent_claims = λ on. subst (Upto history top sent) (sym grown) (
              Upto-lift history history top top (Extends-refl history top) sent
                (base ++ in_flight wire) ((base ++ in_flight wire) ++ carried frame) more
                (t.sent_claims on));
          flusher_claims = subst (λ s. FlusherClaims history top s flusher') (sym grown) goes;
          beat_claims =
              subst (λ s. BeatClaims history top s beat') (sym grown)
                (BeatClaims-lift history history top top (Extends-refl history top)
                  (base ++ in_flight wire) ((base ++ in_flight wire) ++ carried frame) beat' more
                  b);
        }

    -- The mark of what was written goes up to a number that is accounted for.
    pub Traffic-mark :
        (connected : Bool) (sent seq : ℕ) (flusher flusher' : Flusher V) (beat : Option ℕ)
        (wire : List (Frame V))
        → Traffic history top base connected sent flusher beat wire
        → Upto history top seq (base ++ in_flight wire)
        → Within (held flusher') history
        → FlusherClaims history top (base ++ in_flight wire) flusher'
        → Traffic history top base connected (max sent seq) flusher' beat wire
    Traffic-mark connected sent seq flusher flusher' beat wire t u held' goes = record {
      wire_known = t.wire_known;
      held_known = held';
      wire_claims = t.wire_claims;
      sent_claims = λ on. elim (Bool-cases (leb sent seq)) [
        | inl le ↦ rw (le) u
        | inr gt ↦ rw (gt) (t.sent_claims on)
      ];
      flusher_claims = goes;
      beat_claims = t.beat_claims;
    }

    -- The server takes the first frame.
    pub Traffic-take :
        (connected : Bool) (sent : ℕ) (flusher : Flusher V) (beat : Option ℕ) (frame : Frame V)
        (wire : List (Frame V))
        → Traffic history top base connected sent flusher beat (frame ∷ wire)
        → Traffic history top (base ++ carried frame) connected sent flusher beat wire
    Traffic-take connected sent flusher beat frame wire t =
        let moved = sym (append_assoc base (carried frame) (in_flight wire)) in
        record {
          wire_known =
              λ x m. t.wire_known x (append-Member_right x (carried frame) (in_flight wire) m);
          held_known = t.held_known;
          wire_claims = t.wire_claims.1;
          sent_claims = λ on. subst (Upto history top sent) moved (t.sent_claims on);
          flusher_claims = subst (λ s. FlusherClaims history top s flusher) moved t.flusher_claims;
          beat_claims = subst (λ s. BeatClaims history top s beat) moved t.beat_claims;
        }

    -- A join sets the mark to a number that is accounted for at the server.
    pub Traffic-join :
        (connected : Bool) (sent high : ℕ) (flusher : Flusher V) (beat : Option ℕ)
        (wire : List (Frame V))
        → Upto history top high base
        → Traffic history top base connected sent flusher beat wire
        → Traffic history top base true high flusher beat wire
    Traffic-join connected sent high flusher beat wire u t = record {
      wire_known = t.wire_known;
      held_known = t.held_known;
      wire_claims = t.wire_claims;
      sent_claims = λ on.
          Upto-lift history history top top (Extends-refl history top) high base
            (base ++ in_flight wire) (λ x m. append-Member_left x base (in_flight wire) m) u;
      flusher_claims = t.flusher_claims;
      beat_claims = t.beat_claims;
    }
