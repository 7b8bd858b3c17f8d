-- ===== src/EveScout/Fetch.antt =====
-- src/eve_scout.rs: the request for the signatures.
use erbridge_palu.Prelude.{Option, List, Text, text_of}
use erbridge_palu.External.{External}
use erbridge_palu.Disk.{Io, ◌>>=◌, pure, context, of_option}
use erbridge_palu.Sde.Cache.{Response, receive}
use erbridge_palu.EveScout.{RawSignature, EveScoutSnapshot, partition}

-- `from_json` is serde_json's, for the body of the response; `now` is `Utc::now()`.
unfoldable pub fetch_snapshot :
    (X : External)
    → (Text → Option (List (RawSignature X)))
    → Response Text
    → X.DateTime
    → Io (EveScoutSnapshot X)
unfolding receive partition
fetch_snapshot X from_json response now = do
  text ←
      receive response (text_of "fetching EVE-Scout signatures")
        (text_of "EVE-Scout returned error status") (text_of "parsing EVE-Scout signatures")
  raw ← context (text_of "parsing EVE-Scout signatures") (of_option (from_json text))
  pure (partition X raw now)
