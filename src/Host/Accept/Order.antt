-- ===== src/Host/Accept/Order.antt =====
-- The order of the judges and where they stop.
use cuttlefish_vm.Base.{
  Option-cases, Text, codes, ◌≡◌, refl, ap, subst, ◌⊎◌, inl, inr, Bool, true, false, Option, none,
  some, List, [], ◌∷◌, ◌++◌,
}
use cuttlefish_vm.Core.Graph.{ModelRef}
use cuttlefish_vm.Host.Serde.{SerdeJson}
use cuttlefish_vm.Host.Platform.{Platform, Tried, ok, err}
use cuttlefish_vm.Host.Accept.{
  JudgeVerdict, accepted, rejected, unusable, Alternates, judge_backend, judge_max_tokens,
  judge_prompt, judge_reply, run_judges, extract_json, verdict_reason, parse_verdict,
}

module _ (s : SerdeJson) (p : Platform s) (input output : s.json.Value) (default : p.Backend)
    (alternates : Alternates s p) where
  open p use {World}

  abbrev pub given_reason : Option Text → Text
  given_reason none = codes "no reason given"
  given_reason (some why) = why

  -- What a judge's model replies, and the world that it leaves.
  abbrev pub asked : p.Backend → Text → World → Tried Text × World
  asked b prompt w = p.infer b (judge_prompt s p prompt input output) judge_max_tokens w

  -- A reply whose JSON has this `accept`.
  abbrev pub Says : Tried Text → Bool → Type 0
  Says (err e) b = ⊥
  Says (ok reply) b =
      (value : s.json.Value) × (extract_json s p reply ≡ some value)
      × (p.get_bool value (codes "accept") ≡ some b)

  -- A reply that has no `accept`.
  abbrev pub SaysNothing : Tried Text → Type 0
  SaysNothing (err e) = Unit
  SaysNothing (ok reply) =
      (extract_json s p reply ≡ none)
      ⊎ ((value : s.json.Value) × (extract_json s p reply ≡ some value)
          × (p.get_bool value (codes "accept") ≡ none))

  -- Each judge has a backend and says `true`, one behind the other, from one world to another.
  pub data AllAccept : List (Option ModelRef × Text) → World → World → Type 0 where
    no_judge : {w : World} → AllAccept [] w w
    accepts :
        {model : Option ModelRef} {prompt : Text} {rest : List (Option ModelRef × Text)}
        {w w' : World} {b : p.Backend}
        → judge_backend s p default alternates model ≡ some b
        → Says (asked b prompt w).0 true
        → AllAccept rest (asked b prompt w).1 w'
        → AllAccept ((model, prompt) ∷ rest) w w'

  -- A judge with all before it accepting.
  pub record IsReached (judges : List (Option ModelRef × Text)) (w : World) : Type 0 where
    pub before : List (Option ModelRef × Text)
    pub judge_model : Option ModelRef
    pub prompt : Text
    pub after : List (Option ModelRef × Text)
    pub world : World
    pub splits : judges ≡ before ++ ((judge_model, prompt) ∷ after)
    pub accepting : AllAccept before w world

  -- The verdict of judges, from a world, with the world that they leave.
  pub data IsDue (judges : List (Option ModelRef × Text)) (w : World)
      : JudgeVerdict × World → Type 0 where
    all_accept : {w' : World} → AllAccept judges w w' → IsDue judges w (accepted, w')
    one_rejects :
        (r : IsReached judges w) (b : p.Backend) (reply : Text)
        → judge_backend s p default alternates r.judge_model ≡ some b
        → (asked b r.prompt r.world).0 ≡ ok reply
        → Says (ok reply) false
        → IsDue judges w
            (rejected (given_reason (verdict_reason s p reply)), (asked b r.prompt r.world).1)
    one_unresolved :
        (r : IsReached judges w) (why : Text)
        → judge_backend s p default alternates r.judge_model ≡ none
        → IsDue judges w (unusable why, r.world)
    one_fails :
        (r : IsReached judges w) (b : p.Backend) (why : Text)
        → judge_backend s p default alternates r.judge_model ≡ some b
        → SaysNothing (asked b r.prompt r.world).0
        → IsDue judges w (unusable why, (asked b r.prompt r.world).1)

  abbrev reached_first :
      (model : Option ModelRef) (prompt : Text) (rest : List (Option ModelRef × Text)) (w : World)
      → IsReached ((model, prompt) ∷ rest) w
  reached_first model prompt rest w = record {
    before = [];
    judge_model = model;
    prompt = prompt;
    after = rest;
    world = w;
    splits = refl;
    accepting = no_judge;
  }

  abbrev reached_later :
      {model : Option ModelRef} {prompt : Text} {rest : List (Option ModelRef × Text)} {w : World}
      {b : p.Backend}
      → judge_backend s p default alternates model ≡ some b
      → Says (asked b prompt w).0 true
      → IsReached rest (asked b prompt w).1
      → IsReached ((model, prompt) ∷ rest) w
  reached_later {model} {prompt} e yes_ r = record {
    before = (model, prompt) ∷ r.before;
    judge_model = r.judge_model;
    prompt = r.prompt;
    after = r.after;
    world = r.world;
    splits = ap ((model, prompt) ∷◌) r.splits;
    accepting = accepts e yes_ r.accepting;
  }

  IsDue-behind :
      {model : Option ModelRef} {prompt : Text} {rest : List (Option ModelRef × Text)} {w : World}
      {b : p.Backend} {v : JudgeVerdict × World}
      → judge_backend s p default alternates model ≡ some b
      → Says (asked b prompt w).0 true
      → IsDue rest (asked b prompt w).1 v
      → IsDue ((model, prompt) ∷ rest) w v
  IsDue-behind e yes_ (all_accept a) = all_accept (accepts e yes_ a)
  IsDue-behind e yes_ (one_rejects r c reply f k n) =
      one_rejects (reached_later e yes_ r) c reply f k n
  IsDue-behind e yes_ (one_unresolved r why f) = one_unresolved (reached_later e yes_ r) why f
  IsDue-behind e yes_ (one_fails r c why f n) = one_fails (reached_later e yes_ r) c why f n

  -- What a reply says, and what it leads to.
  data ReplyCase (reply : Tried Text) : Option JudgeVerdict → Type 0 where
    says_true : Says reply true → ReplyCase reply none
    says_false :
        (text : Text)
        → reply ≡ ok text
        → Says (ok text) false
        → ReplyCase reply (some (rejected (given_reason (verdict_reason s p text))))
    says_nothing : (why : Text) → SaysNothing reply → ReplyCase reply (some (unusable why))

  rejected_reason :
      (text : Text) (reason : Option Text)
      → verdict_reason s p text ≡ reason
      → Says (ok text) false
      → ReplyCase (ok text) (some (rejected (given_reason reason)))
  rejected_reason text reason e no_ =
      subst (λ r. ReplyCase (ok text) (some (rejected (given_reason r)))) e
        (says_false text refl no_)

  judge_reply-case : (reply : Tried Text) → ReplyCase reply (judge_reply s p reply)
  unfolding judge_reply parse_verdict
  judge_reply-case (err e) = says_nothing _ tt
  judge_reply-case (ok text) = elim (Option-cases (extract_json s p text)) [
    | inl e ↦ rw (e, judge_reply) (says_nothing _ (inl e))
    | inr (value, e) ↦ elim (Option-cases (p.get_bool value (codes "accept"))) [
      | inl f ↦ rw (e, f, judge_reply) (says_nothing _ (inr (value, e, f)))
      | inr (true, f) ↦ rw (e, f, judge_reply) (says_true (value, e, f))
      | inr (false, f) ↦ elim (Option-cases (verdict_reason s p text)) [
        | inl g ↦ rw (e, f, g, judge_reply) (rejected_reason text none g (value, e, f))
        | inr (why, g) ↦ rw (e, f, g, judge_reply) (rejected_reason text (some why) g (value, e, f))
      ]
    ]
  ]

  -- What a judge's verdict, or the others behind it, come to.
  asked-IsDue :
      {model : Option ModelRef} {prompt : Text} {rest : List (Option ModelRef × Text)} {w : World}
      {b : p.Backend} (reply : Option JudgeVerdict)
      → judge_backend s p default alternates model ≡ some b
      → ReplyCase (asked b prompt w).0 reply
      → IsDue rest
          (asked b prompt w).1
          (run_judges s p rest input output default alternates (asked b prompt w).1)
      → IsDue ((model, prompt) ∷ rest) w (elim reply [
        | some verdict ↦ (verdict, (asked b prompt w).1)
        | none ↦ run_judges s p rest input output default alternates (asked b prompt w).1
      ])
  asked-IsDue none e (says_true yes_) later = IsDue-behind e yes_ later
  asked-IsDue (some v) e (says_false text same no_) later =
      one_rejects (reached_first _ _ _ _) _ text e same no_
  asked-IsDue (some v) e (says_nothing why nothing) later =
      one_fails (reached_first _ _ _ _) _ why e nothing

  -- Judges are asked in order. The verdict is `accepted` only where each has a backend and its
  -- reply's JSON has `accept` true; `rejected` only where one says false, with its reason, and all
  -- before it say true; `unusable` only where one has no backend, fails, or has no boolean `accept`
  -- in its reply, and all before it say true. The world left is that behind the last that was
  -- asked.
  pub run_judges-IsDue :
      (judges : List (Option ModelRef × Text)) (w : World)
      → IsDue judges w (run_judges s p judges input output default alternates w)
  unfolding run_judges
  run_judges-IsDue [] w = all_accept no_judge
  run_judges-IsDue ((model, prompt) ∷ rest) w =
      elim (Option-cases (judge_backend s p default alternates model)) [
        | inl e ↦ rw (e, run_judges) (one_unresolved (reached_first _ _ _ _) _ e)
        | inr (b, e) ↦
            rw (e, run_judges)
              (asked-IsDue (judge_reply s p (asked b prompt w).0) e
                (judge_reply-case (asked b prompt w).0)
                (run_judges-IsDue rest (asked b prompt w).1))
      ]
