-- ===== src/System/Accounts.antt =====
-- Whatever the order of the turns, a span that is queued is exported once, in order, or still held,
-- and every other span is counted as dropped.
use pg_otel.Prelude.{
  ℕ, ◌+◌, ◌^◌, ◌≤◌, ◌<◌, ◌≡◌, refl, sym, ap, ◌∙◌, subst, ◌⊎◌, inl, inr, Option, List, [], ◌∷◌, ◌++◌,
  append_assoc, append-nil, length, length-append, All, returns, ◌>>=◌, arith,
}
use pg_otel.Span.{SpanRecord}
use pg_otel.Codec.Encode.{encode_batch}
use pg_otel.Codec.RoundTrip.{IsSpan}
use pg_otel.Codec.Stream.{kept}
use pg_otel.Pipeline.{HoldsSpans}
use pg_otel.Shared.{Header, Published, queued, dropped, register_worker, unregister_worker_on_exit}
use pg_otel.Shared.Publish.{publish_accounts}
use pg_otel.Shared.Tail.{publish-tail_lem}
use pg_otel.Worker.Drain.{exports, exports-append, take_chunk_lem}
use pg_otel.System.{
  Action, publish_spans, export_turn, register, unregister, System, answered, chunk_exported, act,
  run_actions, accepted, offered, action_spans, action_bytes,
}

-- The queue holds `held`; what was exported and what is held is what was queued, in order; and what
-- was dropped and what was queued is what was offered.
pub record IsAccounted (s : System) : Type 0 where
  pub front : List SpanRecord
  pub held : List SpanRecord
  pub holds : HoldsSpans (s.header.ring) held
  pub exported : s.exported ≡ exports front
  pub in_order : accepted s.answers ≡ front ++ held
  pub counted : s.header.dropped_spans + length (accepted s.answers) ≡ offered s.answers

-- The fields of the spans that are published have values of their types.
abbrev pub IsValid : Action → Type 0
IsValid (publish_spans procs spans) = All IsSpan spans
IsValid export_turn = Unit
IsValid (register n) = Unit
IsValid unregister = Unit

offered-append :
    (xs ys : List (List SpanRecord × Published)) → offered (xs ++ ys) ≡ offered xs + offered ys
offered-append [] ys = omega arith
offered-append ((spans, a) ∷ xs) ys = omega (arith, offered-append xs ys)

accepted-append :
    (xs ys : List (List SpanRecord × Published)) → accepted (xs ++ ys) ≡ accepted xs ++ accepted ys
accepted-append [] ys = refl
accepted-append ((spans, queued) ∷ xs) ys =
    ap (λ t. kept spans ++ t) (accepted-append xs ys)
    ∙ sym (append_assoc (kept spans) (accepted xs) (accepted ys))
accepted-append ((spans, dropped) ∷ xs) ys = accepted-append xs ys

-- What one turn leaves.
record Stepped (a : Action) (s s' : System) : Type 0 where
  ran : act a s ≡ returns s'
  accounts : IsAccounted s'
  moved :
      s'.header.ring.state.tail + action_bytes [] ≤ s.header.ring.state.tail + action_bytes (a ∷ [])
  drops : s'.header.dropped_spans ≤ s.header.dropped_spans + action_spans (a ∷ [])

answers_accepted :
    (held now spans : List SpanRecord) (a : Published)
    → ((a ≡ queued) × (now ≡ held ++ kept spans)) ⊎ ((a ≡ dropped) × (now ≡ held))
    → now ≡ held ++ accepted ((spans, a) ∷ [])
answers_accepted held now spans a (inl (e, f)) =
    f
    ∙ ap (λ t. held ++ t) (sym (append-nil (kept spans)))
    ∙ ap (λ b. held ++ accepted ((spans, b) ∷ [])) (sym e)
answers_accepted held now spans a (inr (e, f)) =
    f ∙ sym (append-nil held) ∙ ap (λ b. held ++ accepted ((spans, b) ∷ [])) (sym e)

publish_step :
    (procs : Option ℕ) (spans : List SpanRecord) (s : System)
    → IsAccounted s
    → All IsSpan spans
    → s.header.dropped_spans + length spans < 2 ^ 64
    → s.header.ring.state.tail + length ((encode_batch spans).0.bytes) < 2 ^ 64
    → (s' : System) × Stepped (publish_spans procs spans) s s'
unfolding act
publish_step procs spans s v w counts room =
    let (out, e, x) = publish_accounts procs s.header spans v.holds w counts room in
    let (header, answer, latch) = out in
    let more : List (List SpanRecord × Published) = (spans, answer) ∷ [] in
    let now = answers_accepted v.held x.now spans answer x.answer in
    let all : accepted (s.answers ++ more) ≡ v.front ++ x.now =
      accepted-append s.answers more
      ∙ ap (λ t. t ++ accepted more) v.in_order
      ∙ append_assoc v.front v.held (accepted more)
      ∙ ap (λ t. v.front ++ t) (sym now) in
    let s' : System = record s { header = header; answers = s.answers ++ more } in
    (
      s',
      record {
        ran = ap (answered s spans) e;
        accounts = record {
          front = v.front;
          held = x.now;
          holds = x.holds;
          exported = v.exported;
          in_order = all;
          counted = omega (
            arith,
            v.counted,
            x.conserved,
            ap length all,
            ap length v.in_order,
            length-append v.front x.now,
            length-append v.front v.held,
            offered-append s.answers more,
          );
        };
        moved = omega (
          arith,
          publish-tail_lem procs s.header (encode_batch spans).0 (encode_batch spans).1 out e,
        );
        drops = omega (arith, x.conserved, ap length now, length-append v.held (accepted more));
      },
    )

export_step : (s : System) → IsAccounted s → (s' : System) × Stepped export_turn s s'
unfolding act
export_step s v =
    let c = take_chunk_lem s.header v.holds in
    (
      record s { header = c.header; exported = s.exported ++ exports c.taken },
      record {
        ran = ap (chunk_exported s) c.chunk;
        accounts = record {
          front = v.front ++ c.taken;
          held = c.left;
          holds = c.holds;
          exported =
              ap (λ t. t ++ exports c.taken) v.exported ∙ sym (exports-append v.front c.taken);
          in_order =
              v.in_order
              ∙ ap (λ t. v.front ++ t) c.split
              ∙ sym (append_assoc v.front c.taken c.left);
          counted = ap (λ d. d + length (accepted s.answers)) c.drops ∙ v.counted;
        };
        moved = omega (arith, c.unmoved);
        drops = omega (arith, c.drops);
      },
    )

-- A turn of a process that only changes the worker's number.
register_step :
    (a : Action) (s : System) (h : Header)
    → IsAccounted s
    → act a s ≡ returns (record s { header = h })
    → h.ring ≡ s.header.ring
    → h.dropped_spans ≡ s.header.dropped_spans
    → (s' : System) × Stepped a s s'
register_step a s h v e f g = (
  record s { header = h },
  record {
    ran = e;
    accounts = record {
      front = v.front;
      held = v.held;
      holds = subst (λ r. HoldsSpans r v.held) (sym f) v.holds;
      exported = v.exported;
      in_order = v.in_order;
      counted = ap (λ d. d + length (accepted s.answers)) g ∙ v.counted;
    };
    moved = omega (arith, ap (λ r. r.state.tail) f);
    drops = omega (arith, g);
  },
)

step_lem :
    (a : Action) (s : System)
    → IsAccounted s
    → IsValid a
    → s.header.dropped_spans + action_spans (a ∷ []) < 2 ^ 64
    → s.header.ring.state.tail + action_bytes (a ∷ []) < 2 ^ 64
    → (s' : System) × Stepped a s s'
step_lem (publish_spans procs spans) s v w counts room =
    publish_step procs spans s v w (omega arith) (omega arith)
step_lem export_turn s v w counts room = export_step s v
step_lem (register n) s v w counts room =
    register_step (register n) s (register_worker n s.header) v (unfold act in refl) refl refl
step_lem unregister s v w counts room =
    register_step unregister s (unregister_worker_on_exit s.header) v (unfold act in refl) refl refl

action_spans-cons :
    (a : Action) (actions : List Action)
    → action_spans (a ∷ actions) ≡ action_spans (a ∷ []) + action_spans actions
action_spans-cons (publish_spans procs spans) actions = omega arith
action_spans-cons export_turn actions = omega arith
action_spans-cons (register n) actions = omega arith
action_spans-cons unregister actions = omega arith

action_bytes-cons :
    (a : Action) (actions : List Action)
    → action_bytes (a ∷ actions) ≡ action_bytes (a ∷ []) + action_bytes actions
action_bytes-cons (publish_spans procs spans) actions = omega arith
action_bytes-cons export_turn actions = omega arith
action_bytes-cons (register n) actions = omega arith
action_bytes-cons unregister actions = omega arith

-- Any sequence of turns, of backends that publish spans whose fields have values of their types and
-- of a worker that takes chunks, ends, from a state that is accounted for. What was exported and what
-- is still held is then, in order and each span once, what the backends were told is queued; and the
-- number of dropped spans and of queued ones is the number of spans offered. The 64-bit counters of
-- dropped spans and of bytes written must have room for all the turns.
pub run_actions-IsAccounted :
    (actions : List Action) (s : System)
    → IsAccounted s
    → All IsValid actions
    → s.header.dropped_spans + action_spans actions < 2 ^ 64
    → s.header.ring.state.tail + action_bytes actions < 2 ^ 64
    → (s' : System) × (run_actions actions s ≡ returns s') × IsAccounted s'
unfolding run_actions
run_actions-IsAccounted [] s v w counts room = (s, refl, v)
run_actions-IsAccounted (a ∷ actions) s v w counts room =
    let spans = action_spans-cons a actions in
    let bytes = action_bytes-cons a actions in
    let (s1, t) = step_lem a s v w.0 (omega arith) (omega arith) in
    let (s', e, v') =
      run_actions-IsAccounted actions s1 t.accounts w.1 (omega (arith, t.drops))
        (omega (arith, t.moved)) in
    (s', ap (λ o. o >>= run_actions actions) t.ran ∙ e, v')
