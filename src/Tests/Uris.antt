-- ===== src/Tests/Uris.antt =====
-- utils.go: the theorem on a printed URI with a hint.
use concrnt.Prelude.{◌≡◌, refl, some}
use concrnt.Prelude.Outcome.{ok}
use concrnt.Prelude.Text.{concat}
use concrnt.Uri.{UrlPackage, CcUri, to_string, parse_cc_uri}
use concrnt.Uri.RoundTrip.{keyed, IsPlain, url_of, parse_cc_uri-to_string}

abbrev profile : CcUri
profile = record {
  scheme = "cckv";
  owner = "alice";
  key = "profile/main";
  type_name = "";
  cdid = "";
  hint = some "example.com";
  raw = "";
}

abbrev knows_profile : UrlPackage
knows_profile = record {
  query_unescape = λ s. some s;
  parse_url = λ s. some (url_of profile);
  url_text = λ scheme host path. concat scheme (concat "://" (concat host (concat "/" path)));
}

knows_profile-IsPlain : IsPlain knows_profile profile
knows_profile-IsPlain = record { unescaped = refl; parts = refl; owner_unescaped = refl }

parse_cc_uri-to_string_example :
    parse_cc_uri knows_profile (to_string profile)
    ≡ ok (record profile { raw = "cckv://alice@example.com/profile/main" })
unfolding to_string
parse_cc_uri-to_string_example =
    parse_cc_uri-to_string knows_profile profile (keyed refl) knows_profile-IsPlain
