-- ===== src/Tests/Services.antt =====
-- The job queue, timelines, tokens and residents: the theorems on small instances.
use mathlib.Core.Path.{subst}
use concrnt.Prelude.{
  All, inl, inr, Bool-cases, str_eq, ℕ, zero, suc, ◌-◌, ◌*◌, ◌^◌, String, ◌≡◌, ◌⊎◌, refl, true,
  List, [], ◌∷◌, Option, none, some, arith, if◌then◌else◌,
}
use concrnt.Prelude.Int.{ℤ, pos, ltb_ℤ}
use concrnt.Prelude.Outcome.{Outcome, ok, err, panic}
use concrnt.Prelude.Dict
use concrnt.Prelude.Dict.{Dict}
use concrnt.JobQueue.{Job, backoff_duration, move_due_retries}
use concrnt.JobQueue.Backoff.{min, backoff_duration-min}
use concrnt.JobQueue.Ledger.{Ledger}
use concrnt.JobQueue.Fate.{rounds, waiting, IsApart}
use concrnt.JobQueue.Settled.{run_of, outcome, settled, rounds-outcome}
use concrnt.JobQueue.Moves.{Backed, move_due_retries-Backed}
use concrnt.Chunkline.{less, BodyItemWithSource, Environment, query_descending}
use concrnt.Chunkline.{BodyChunk, Manifest, QueueItem, get_chunks}
use concrnt.Chunkline.Gateway.{Gateway, resolve_timelines}
use concrnt.Chunkline.Resolved.{AllUsable, resolve_timelines-AllUsable}
use concrnt.Chunkline.Unbroken.{IsCalm, Covers, query_descending-ne-panic}
use concrnt.Chunkline.Merge.{IsAnswer, query_descending-IsAnswer}
use concrnt.Jwt.{Library, validate}
use concrnt.Jwt.Valid.{IsValid, validate-IsValid}
use concrnt.Residence.{
  Residence, Request, backend, mark_commit_logs, delete_meta, register, unregister,
}
use concrnt.Residence.Admission.{IsAdmissible, register-IsAdmissible, unregister_order}
use concrnt.Tests.Envelope.{toy_queue, toy_law}
use concrnt.Tests.Commits.{master, toy_crypto, by_master}

backoff_duration-min_example :
    backoff_duration 3 10000000000 3600000000000 ≡ min (10000000000 * 3 ^ (3 - 1)) 3600000000000
backoff_duration-min_example =
    backoff_duration-min 3 10000000000 3600000000000 (omega (arith)) (omega (arith))

abbrev toy_job : Job
toy_job = record {
  id = "1";
  job_type = "RecordDelivery";
  payload = "{}";
  attempt = 0;
  created_at = pos 0;
  last_error = "";
}

-- the handler fails but in the last round
abbrev late : ℕ → String → Option (String → Option String)
late zero job_type = some (λ payload. none)
late (suc n) job_type = some (λ payload. some "unreachable")

-- another job's message and letter
abbrev toy_ledger : Ledger
toy_ledger = record { stream = ("0-1", "x") ∷ []; retries = []; letters = ("0-2", "y") ∷ [] }

toy-IsApart : IsApart toy_ledger (λ n. "id") (toy_law.written) toy_job
toy-IsApart = record { messages = λ n. refl; members = λ attempt error. refl }

rounds-outcome_example :
    rounds toy_queue
      (λ c. true)
      late
      (λ n. "id")
      3
      (toy_law.written toy_job)
      (waiting toy_ledger "id" (toy_law.written toy_job))
    ≡ settled toy_queue
        (toy_law.written)
        toy_job
        "id"
        toy_ledger
        (outcome (run_of toy_queue late toy_job) 2)
rounds-outcome_example =
    rounds-outcome toy_queue toy_law (λ c. true) (λ c. refl) late (λ n. "id") toy_ledger 2 toy_job
      toy-IsApart (omega (arith))

move_due_retries-Backed_example :
    Backed (λ c. true) [] (move_due_retries (λ c. true) ("a" ∷ "b" ∷ []))
move_due_retries-Backed_example = move_due_retries-Backed (λ c. true) [] ("a" ∷ "b" ∷ [])

-- one timeline with two items, of which one is retracted
abbrev toy_timelines : Environment
toy_timelines = record {
  resolve_timelines = λ uris. ok (("t", record { chunk_size = pos 600 }) ∷ []);
  get_removed_items = λ uris. ok (("t", "gone" ∷ []) ∷ []);
  lookup_chunk_itrs =
      λ uris until. if ltb_ℤ until (pos 1000000000000) then err "none" else ok (("t", "1") ∷ []);
  load_chunk_bodies = λ query. ok (
      (
        "t",
        record {
          chunk_id = pos 1;
          items =
              record { timestamp = pos 700000000000; content = ""; href = "gone" }
              ∷ (record { timestamp = pos 650000000000; content = "hello"; href = "" } ∷ []);
        },
      )
      ∷ []);
  hash = λ s. s;
  pop = λ order queue. elim queue [ [] ↦ none | q ∷ rest ↦ some (q, rest) ];
}

abbrev answer_of : Outcome String (List BodyItemWithSource) → List BodyItemWithSource
answer_of (ok l) = l
answer_of _ = []

abbrev toy_answer : List BodyItemWithSource
toy_answer =
    record {
      item = record { timestamp = pos 650000000000; content = "hello"; href = "" };
      source = "t";
    }
    ∷ []

query_descending-IsAnswer_example :
    (removed : Dict (List String)) × (toy_timelines.get_removed_items ("t" ∷ []) ≡ ok removed)
    × IsAnswer toy_timelines removed 10 toy_answer
unfolding query_descending
query_descending-IsAnswer_example =
    query_descending-IsAnswer toy_timelines ("t" ∷ []) (pos 2000000000000) 10 toy_answer refl

toy_pops :
    (P : QueueItem → Type 0) (queue rest : List QueueItem) (q : QueueItem)
    → toy_timelines.pop less queue ≡ some (q, rest)
    → All P queue
    → P q × All P rest
toy_pops P [] rest q h held = absurd (cc)
toy_pops P (first ∷ others) rest q h held =
    subst (λ (y : QueueItem × List QueueItem). P y.0 × All P y.1) (pair h) held
  where
    pair :
        {a b : QueueItem × List QueueItem}
        → Path (Option (QueueItem × List QueueItem)) (some a) (some b)
        → a ≡ b
    pair h = cc

lookup_returns :
    (uris : List String) (until : ℤ) → ¬ (toy_timelines.lookup_chunk_itrs uris until ≡ panic)
lookup_returns uris until h = elim (Bool-cases (ltb_ℤ until (pos 1000000000000))) [
  | inl early ↦ let h1 = rw (early) at h in cc
  | inr late ↦ let h1 = rw (late) at h in cc
]

toy-IsCalm : IsCalm toy_timelines
toy-IsCalm = record {
  timelines = λ uris h. cc;
  removed = λ uris h. cc;
  iterators = lookup_returns;
  bodies = λ query h. cc;
  pops = toy_pops;
}

toy-Covers :
    (manifests : Dict Manifest) (chunks : Dict BodyChunk)
    → toy_timelines.resolve_timelines ("t" ∷ []) ≡ ok manifests
    → get_chunks toy_timelines ("t" ∷ []) (pos 2000000000000) ≡ ok chunks
    → Covers manifests chunks
unfolding get_chunks Dict.get
toy-Covers manifests chunks resolved found =
    subst (λ m. Covers m chunks) (ok-injective resolved)
      (subst (λ c. Covers (("t", record { chunk_size = pos 600 }) ∷ []) c) (ok-injective found)
        (refl, tt))
  where
    ok-injective : {A : Type 0} {a b : A} → Path (Outcome String A) (ok a) (ok b) → a ≡ b
    ok-injective h = cc

query_descending-ne-panic_example :
    ¬ (query_descending toy_timelines ("t" ∷ []) (pos 2000000000000) 10 ≡ panic)
query_descending-ne-panic_example =
    query_descending-ne-panic toy_timelines ("t" ∷ []) (pos 2000000000000) 10 toy-IsCalm toy-Covers

-- one server of timelines, another of something else
abbrev toy_gateway : Gateway
toy_gateway = record {
  get_multi = λ keys. [];
  decode_manifest = λ text. none;
  encode_manifest = λ m. some "{}";
  fetch_manifest =
      λ timeline. ok (record { chunk_size = if str_eq timeline "t" then pos 600 else pos 0 });
}

resolve_timelines-AllUsable_example : AllUsable (("t", record { chunk_size = pos 600 }) ∷ [])
unfolding resolve_timelines
resolve_timelines-AllUsable_example =
    resolve_timelines-AllUsable toy_gateway ("t" ∷ "u" ∷ [])
      (record {
        manifests = ("t", record { chunk_size = pos 600 }) ∷ [];
        cached = ("chunkline_manifest:t", "{}") ∷ [];
      })
      refl

abbrev toy_library : Library
toy_library = record {
  crypto = toy_crypto;
  decode_base64 = λ s. some [];
  header_of = λ bytes. some (record { algorithm = "CONCRNT"; type_name = "JWT" });
  claims_of =
      λ bytes. some (record { issuer = master; subject = "invite"; expiration_time = "20" });
  parse_int = λ s. some (pos 20);
}

validate-IsValid_example : IsValid toy_library (pos 10) "h.p.s" master
unfolding validate
validate-IsValid_example = validate-IsValid toy_library (pos 10) "h.p.s" master refl

abbrev toy_residence : Residence
toy_residence = record {
  fqdn = "example.com";
  csid = master;
  registration = "invite";
  jwt = toy_library;
  now = pos 10;
  get_entity = λ ccid. err backend;
  read_entity =
      λ text. some (record { author = "con1"; domain = "example.com"; created_at = pos 5 });
  perform = λ e. ok tt;
}

abbrev toy_registration : Request
toy_registration = record {
  invite_token = some "h.p.s";
  signed_document = by_master "entity";
  meta = some "{}";
  captcha_verified = some true;
}

register-IsAdmissible_example :
    ((register toy_residence toy_registration).effects ≡ [])
    ⊎ IsAdmissible toy_residence toy_registration
register-IsAdmissible_example = register-IsAdmissible toy_residence toy_registration

unregister_order_example :
    ((unregister toy_residence (some "con1")).effects ≡ mark_commit_logs "con1" ∷ [])
    ⊎ (((unregister toy_residence (some "con1")).effects
          ≡ mark_commit_logs "con1" ∷ (delete_meta "con1" ∷ []))
        × (toy_residence.perform (mark_commit_logs "con1") ≡ ok tt)
        × ((unregister toy_residence (some "con1")).result
            ≡ toy_residence.perform (delete_meta "con1")))
unregister_order_example = unregister_order toy_residence "con1"
