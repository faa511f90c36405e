-- ===== src/Urls.antt =====
-- Go's `net/url`, as the other parts use it: a parameter. Of a URL the parts are named that the program reads.
use machmqtt_dashboard.Prelude.{Option, Bytes}

pub record Url : Type 0 where
  pub scheme : Bytes
  pub user : Option Bytes
  pub host : Bytes
  pub path : Bytes
  pub raw_query : Bytes
  pub fragment : Bytes
  pub rest : Bytes

-- `url.Parse` and `String`.
pub record UrlLibrary : Type 0 where
  pub parse : Bytes → Option Url
  pub print : Url → Bytes
