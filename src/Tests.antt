-- ===== src/Tests.antt =====
-- Concrete inputs on which the theorems are applied: a stand-in for net/url and a request.
mod Policies
mod Ids
mod Documents
pub mod Commits
mod Sessions
mod Uris
mod Records
mod Services
mod Envelope
use concrnt.Prelude.{String, true, List, [], ◌∷◌, Option, none, some}
use concrnt.Prelude.Text.{concat}
use concrnt.Uri.{UrlPackage}
use concrnt.Policy.Conclusion
use concrnt.Policy.Conclusion.{Conclusion}
use concrnt.Policy.Value.{Value, bool, nil}
use concrnt.Policy.Reflect.{null, no_entry}
use concrnt.Policy.Operators.{RequestContext}
use concrnt.Policy.Eval.{Expr, expr, no_expr}
use concrnt.Policy.Evaluate.{Statement, Policy}

abbrev toy_url : UrlPackage
toy_url = record {
  query_unescape = λ s. some s;
  parse_url = λ s. none;
  url_text = λ scheme host path. concat scheme (concat "://" (concat host (concat "/" path)));
}

abbrev toy_request : RequestContext
toy_request = record {
  requester = null;
  self = null;
  params = no_entry;
  globals = null;
  caller = none;
}

abbrev always : Expr
always = expr "Const" no_expr (bool true)

abbrev saying : Conclusion → Statement
saying c = record { action = "read"; key = "*"; emit = c; condition = always; reason = some "rule" }

abbrev mixed_policy : Policy
mixed_policy = record {
  statements = saying Conclusion.ok ∷ saying Conclusion.deny ∷ [];
  defaults = [];
}

abbrev allowing_policy : Policy
allowing_policy = record { statements = saying Conclusion.allow ∷ []; defaults = [] }
