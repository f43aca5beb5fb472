-- ===== src/Web/Reports.antt =====
-- Reports, apps/web/src/hooks/use-reports.ts: the parameters are string properties.
use open_troop.Prelude.{String, Option, none, some, get_or, List, [], ◌∷◌, if◌then◌else◌}
use open_troop.Web.{fetched, template, shown, truthy, when_active, when_given, Call, QueryOptions}
use open_troop.Doc.{Doc, spread, to_text, str}
use open_troop.Web.QueryKeys

-- `toQuery`: the parameters that are not empty
abbrev pub to_query : Doc → List (String × String)
to_query [] = []
to_query ((key, v) ∷ params) =
    let rest = to_query params in if truthy (to_text v) then (key, to_text v) ∷ rest else rest

abbrev pub use_report_catalog : String → QueryOptions
use_report_catalog t = when_active t (QueryKeys.report_catalog (some t)) (fetched "/reports")

-- `/reports/${key}${toQuery({ ...params, format })}`
abbrev pub report_call : String → String → Doc → Call
report_call key format params = record {
  path = template ("/reports/" ∷ key ∷ []);
  query = to_query (spread params (("format", str format) ∷ []));
  method = "GET";
  body = none;
}

abbrev pub use_report : String → Option String → Doc → QueryOptions
use_report t key params =
    when_given t key (QueryKeys.report (some t) (get_or key "") params)
      (report_call (shown key) "json" params)

-- What the download requests, and the name of the file.
abbrev pub use_report_csv_download : String → Doc → Call × String
use_report_csv_download key params =
    (report_call key "csv" params, template (key ∷ "-report.csv" ∷ []))
