-- ===== src/Tests/Records.antt =====
-- internal/usecase/record: the theorems on a server with one stored record.
use concrnt.Prelude.{
  String, ◌≤◌, ◌≡◌, refl, true, false, List, [], ◌∷◌, ◌++◌, none, some, str_eq, if◌then◌else◌, All,
  length, map, drop,
}
use concrnt.Prelude.Int.{ℤ, pos}
use concrnt.Prelude.Outcome.{ok, err}
use concrnt.Prelude.Text.{concat}
use concrnt.Uri.{parse_cc_uri}
use concrnt.Document.{Document, SignedDocument, no_reference, reference}
use concrnt.Document.Public.{public_view}
use concrnt.Verify.{Kit}
use concrnt.Commit.{CommitMode, Result, not_found}
use concrnt.Record.{Env, EntityValue, ReferenceValue, ServerInfo, ApplyResult, nothing_applied}
use concrnt.Record.Query.{
  QueryRow, Page, paginate_window, QueryParams, query, option_map, cursor_of, first_row,
}
use concrnt.Record.Query.Pages.{IsReadable, paginate_window-rows, query-IsReadable}
use concrnt.Record.Read.{mark_for_anonymous}
use concrnt.Record.Read.Anonymous.{
  AllReferences, IsPublicThroughout, public_view-mark_for_anonymous,
}
use concrnt.Record.Create.{create_record_op}
use concrnt.Record.Create.Admitted.{IsAdmitted, create_record_op-IsAdmitted}
use concrnt.Record.Associate.{create_association_op}
use concrnt.Record.Associate.Stored.{IsAssociated, create_association_op-IsAssociated}
use concrnt.Record.Acknowledge.{process_ack_op}
use concrnt.Record.Acknowledge.Sides.{side_writes, process_ack_op-side_writes}
use concrnt.Record.Remove.{delete_record_op}
use concrnt.Record.{document_id}
use concrnt.Tests.Commits.{about_bob, note, toy_kit, toy_codec, by_master, bob_entity}

abbrev post : Document
post = record note { key = "cckv://bob/x"; associate = none }

abbrev record_kit : Kit
record_kit = record toy_kit {
  codec = record toy_codec {
    decode = λ text. some post;
    decode_string = λ text. some "cckv://bob/x";
  };
  url = record about_bob {
    parse_url = λ uri. some (
        if str_eq uri "cckv://bob@example.com"
        then record { scheme = "cckv"; host = "example.com"; path = ""; user = some "bob" }
        else record { scheme = "cckv"; host = "bob"; path = "/x"; user = none });
  };
}

abbrev stored_post : SignedDocument
stored_post = by_master "post"

-- anyone may read and write
abbrev toy_env : Env
toy_env = record {
  kit = record_kit;
  fqdn = "example.com";
  layer = "main";
  has_kvs = true;
  has_jobs = true;
  now = pos 1700000000500000000;
  reader = none;
  entity_value = λ text. none;
  reference_value = λ text. none;
  value_bytes = λ text. some "{}";
  reference_text = λ key href author now. some "reference";
  get_signed_document = λ uri. if str_eq uri "cckv://bob/x" then ok stored_post else err not_found;
  record_subtree = λ base self. ok [];
  hierarchical_policies = λ uri. ok [];
  distributions_of = λ uri. ok [];
  timeline_removal = λ uri. ok ("timeline", "item");
  perform = λ w. ok true;
  permits = λ requester self stack action key. ok tt;
  entity_by_ccid = λ ccid. ok (record bob_entity { signed_document = some stored_post });
  entity_by_alias = λ alias. ok bob_entity;
  get_meta = λ ccid. ok tt;
  lookup_txt = λ name. ok [];
  resolve_server = λ host. ok (record { layer = "main"; is_blocked = false });
  fetch_resource = λ uri host. err not_found;
  resolve_resource_host = λ uri. ok "example.com";
  resolve_resource_uri = λ uri. ok uri;
  recommit = λ ip sd. err not_found;
  join_path = λ base segment. some (concat base (concat "/" segment));
  hash_text = λ s. s;
}

abbrev applied : Result ApplyResult → ApplyResult
applied (ok r) = r
applied _ = nothing_applied []

abbrev deletion : Result ApplyResult
deletion = delete_record_op toy_env bob_entity (by_master "delete") CommitMode.execute

abbrev creation : Result ApplyResult
creation = create_record_op toy_env "ip" bob_entity post stored_post CommitMode.execute

create_record_op-IsAdmitted_example :
    IsAdmitted toy_env bob_entity post stored_post (applied creation)
unfolding create_record_op parse_cc_uri
create_record_op-IsAdmitted_example =
    create_record_op-IsAdmitted toy_env "ip" bob_entity post stored_post CommitMode.execute
      (applied creation) refl

public_view-mark_for_anonymous_example :
    AllReferences
      (IsPublicThroughout toy_env)
      (public_view (mark_for_anonymous toy_env (reference "cckv://bob/x" stored_post no_reference)))
public_view-mark_for_anonymous_example =
    public_view-mark_for_anonymous toy_env (reference "cckv://bob/x" stored_post no_reference)

abbrev row_at : ℤ → QueryRow
row_at t = record { row = concrnt.Record.with_cckv "cckv://bob/x" stored_post; created_at = t }

abbrev two_rows : List QueryRow
two_rows = row_at (pos 2) ∷ row_at (pos 1) ∷ []

paginate_window-rows_example :
    let page = paginate_window two_rows 1 "createdAt" in
    (length page.items ≤ 1)
    × (page.items ++ map (λ (r : QueryRow). r.row) (drop 1 two_rows)
        ≡ map (λ (r : QueryRow). r.row) two_rows)
    × (page.next ≡ option_map (cursor_of "createdAt") (first_row (drop 1 two_rows)))
paginate_window-rows_example = paginate_window-rows two_rows 1 "createdAt"

abbrev params : QueryParams
params = record { prefix = "cckv://bob"; parent = ""; order_by = ""; limit = 1 }

abbrev found_page : Result Page → Page
found_page (ok p) = p
found_page _ = record { items = []; prev = none; next = none }

abbrev queried : Page
queried = found_page (query toy_env none (λ q n. ok two_rows) params)

query-IsReadable_example : All (IsReadable toy_env none) queried.items × (length queried.items ≤ 1)
unfolding query
query-IsReadable_example = query-IsReadable toy_env none (λ q n. ok two_rows) params queried refl

abbrev reply : Document
reply = record post { kind = "association"; key = ""; associate = some "cckv://bob/x" }

abbrev association : Result ApplyResult
association =
    create_association_op toy_env "ip" bob_entity reply (by_master "reply") CommitMode.execute

create_association_op-IsAssociated_example :
    IsAssociated toy_env bob_entity reply (by_master "reply") (applied association)
unfolding create_association_op parse_cc_uri
create_association_op-IsAssociated_example =
    create_association_op-IsAssociated toy_env "ip" bob_entity reply (by_master "reply")
      CommitMode.execute (applied association) refl

abbrev ack : Document
ack = record post { kind = "ack"; key = ""; associate = some "cckv://bob/x" }

abbrev ack_env : Env
ack_env = record toy_env {
  kit = record record_kit { codec = record toy_codec { decode = λ text. some ack } };
}

abbrev acknowledgement : Result ApplyResult
acknowledgement =
    process_ack_op ack_env "ip" bob_entity bob_entity ack (by_master "ack") CommitMode.execute

process_ack_op-side_writes_example :
    (id : String) × (document_id ack_env (by_master "ack") ≡ ok id)
    × ((applied acknowledgement).writes ≡ side_writes ack_env bob_entity bob_entity ack id)
unfolding process_ack_op parse_cc_uri
process_ack_op-side_writes_example =
    process_ack_op-side_writes ack_env "ip" bob_entity bob_entity ack (by_master "ack")
      CommitMode.execute (applied acknowledgement) refl
