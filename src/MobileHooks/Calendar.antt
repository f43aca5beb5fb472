-- ===== src/MobileHooks/Calendar.antt =====
-- `useCalendarSubscription` of apps/mobile/src/hooks/use-calendar.ts: the link to the calendar of the
-- member. A tap and the answer to its request are two steps.
use Prim.Native.String.{len, slice, ◌++◌ as join}
use text.Mathlib.Text.{starts_with}
use open_troop.Doc.Decimal.{show}
use open_troop.Prelude.{
  ℕ, String, Bool, true, false, not, ◌&&◌, Option, none, some, get_or, str_eq, leb, if◌then◌else◌,
}
use open_troop.Web.{bare, is_some, Call}

pub record CalendarSubscription : Type 0 where
  pub active : Bool
  pub feed_path : Option String

-- `base.replace(/^https?:\/\//, "webcal://")`
abbrev pub as_webcal : String → String
as_webcal base =
    if starts_with base "https://"
    then join "webcal://" (slice base 8 (len base))
    else if starts_with base "http://"
    then join "webcal://" (slice base 7 (len base))
    else base

-- `feedUrl`, where `base` is `apiBaseUrl(slug)`; an empty path is no path.
abbrev pub feed_url : String → Option String → Option String
feed_url base none = none
feed_url base (some feed_path) =
    if str_eq feed_path "" then none else some (join (as_webcal base) feed_path)

pub record CalendarLink : Type 0 where
  pub url : Option String
  pub busy : Bool
  pub error : Option String

-- `create` and `rotate`
abbrev pub create_call : Call
create_call = bare "POST" "/calendar/subscription"

abbrev pub rotate_call : Call
rotate_call = bare "DELETE" "/calendar/subscription"

-- `mint` up to its request, where there are a client and a tenant.
abbrev pub begin_mint : CalendarLink → CalendarLink
begin_mint s = record s { busy = true; error = none }

-- What the request comes to: the message of what is thrown, none for what is no `Error`, or an answer.
pub data MintReply : Type 0 where
  thrown : Option String → MintReply
  replied : ℕ → CalendarSubscription → MintReply

abbrev show_built : Option String → CalendarSubscription → CalendarLink → CalendarLink
show_built url body s =
    if not (is_some url) && body.active
    then record s {
      url = url;
      error = some "Already subscribed. Tap “Get a fresh link” to reveal a new URL.";
    }
    else record s { url = url }

abbrev settle_mint : String → MintReply → CalendarLink → CalendarLink
settle_mint base (thrown message) s = record s {
  error = some (get_or message "Could not create the calendar link.");
}
settle_mint base (replied status body) s =
    if leb 400 status
    then record s { error = some (join "HTTP " (show status)) }
    else show_built (feed_url base body.feed_path) body s

-- The rest of `mint`
abbrev pub finish_mint : String → MintReply → CalendarLink → CalendarLink
finish_mint base reply s = record (settle_mint base reply s) { busy = false }

-- `mint`, where `has_tenant` is whether there are a client and a tenant.
abbrev pub mint : Bool → String → MintReply → CalendarLink → CalendarLink
mint has_tenant base reply s = if has_tenant then finish_mint base reply (begin_mint s) else s
