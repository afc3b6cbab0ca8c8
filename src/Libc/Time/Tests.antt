-- ===== src/Libc/Time/Tests.antt =====
-- The round trip of a time in September 2001.
use simple_scc.Common.{◌≡◌, arith}
use simple_scc.Common.Int.{pos}
use simple_scc.Libc.Time.{ok, Tm, gmtime, mktime, year_of, daysyear}
use simple_scc.Libc.Time.RoundTrip.{mktime-gmtime}

mktime-gmtime_example :
    (tm : Tm) × (gmtime 1000000000 ≡ ok tm) × (mktime 9999 tm ≡ ok (pos 1000000000, tm))
mktime-gmtime_example =
    mktime-gmtime 9999 1000000000 (unfold year_of in unfold daysyear in omega arith) (omega arith)
