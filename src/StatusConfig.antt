-- ===== src/StatusConfig.antt =====
-- frontend/src/lib/status-config.ts. The keys of the table are its own; the names that every
-- JavaScript object inherits are left out.
mod Styles
use etl_nexus.Common.{String, List, [], ◌∷◌, Option, none, some, if◌then◌else◌, ◌===◌, map}

pub record StatusStyle : Type 0 where
  pub dot : String
  pub glow : String
  pub label : String
  pub text : String
  pub bg : String
  pub active_pill : String

abbrev pub success_style : StatusStyle
success_style = record {
  dot = "bg-emerald-400";
  glow = "shadow-[0_0_8px_rgba(52,211,153,0.7)]";
  label = "Success";
  text = "text-emerald-400/80";
  bg = "bg-emerald-500/8";
  active_pill = "text-emerald-300 bg-emerald-500/15 border-emerald-500/30";
}

abbrev pub failed_style : StatusStyle
failed_style = record {
  dot = "bg-rose-400";
  glow = "shadow-[0_0_8px_rgba(251,113,133,0.7)]";
  label = "Failed";
  text = "text-rose-400/80";
  bg = "bg-rose-500/8";
  active_pill = "text-rose-300 bg-rose-500/15 border-rose-500/30";
}

abbrev pub upstream_failed_style : StatusStyle
upstream_failed_style = record {
  dot = "bg-orange-400";
  glow = "shadow-[0_0_8px_rgba(251,146,60,0.7)]";
  label = "Upstream Failed";
  text = "text-orange-400/80";
  bg = "bg-orange-500/8";
  active_pill = "text-orange-300 bg-orange-500/15 border-orange-500/30";
}

abbrev pub running_style : StatusStyle
running_style = record {
  dot = "bg-amber-400 animate-pulse";
  glow = "shadow-[0_0_8px_rgba(251,191,36,0.7)]";
  label = "Running";
  text = "text-amber-400/80";
  bg = "bg-amber-500/8";
  active_pill = "text-amber-300 bg-amber-500/15 border-amber-500/30";
}

abbrev pub queued_style : StatusStyle
queued_style = record {
  dot = "bg-sky-400";
  glow = "shadow-[0_0_8px_rgba(56,189,248,0.5)]";
  label = "Queued";
  text = "text-sky-400/80";
  bg = "bg-sky-500/8";
  active_pill = "text-sky-300 bg-sky-500/15 border-sky-500/30";
}

abbrev pub skipped_style : StatusStyle
skipped_style = record {
  dot = "bg-pink-400";
  glow = "shadow-[0_0_8px_rgba(244,114,182,0.5)]";
  label = "Skipped";
  text = "text-pink-400/80";
  bg = "bg-pink-500/8";
  active_pill = "text-pink-300 bg-pink-500/15 border-pink-500/30";
}

abbrev pub up_for_retry_style : StatusStyle
up_for_retry_style = record {
  dot = "bg-yellow-400";
  glow = "shadow-[0_0_8px_rgba(250,204,21,0.5)]";
  label = "Up For Retry";
  text = "text-yellow-400/80";
  bg = "bg-yellow-500/8";
  active_pill = "text-yellow-300 bg-yellow-500/15 border-yellow-500/30";
}

abbrev pub deferred_style : StatusStyle
deferred_style = record {
  dot = "bg-purple-400";
  glow = "shadow-[0_0_8px_rgba(192,132,252,0.5)]";
  label = "Deferred";
  text = "text-purple-400/80";
  bg = "bg-purple-500/8";
  active_pill = "text-purple-300 bg-purple-500/15 border-purple-500/30";
}

abbrev pub scheduled_style : StatusStyle
scheduled_style = record {
  dot = "bg-cyan-400";
  glow = "shadow-[0_0_8px_rgba(34,211,238,0.5)]";
  label = "Scheduled";
  text = "text-cyan-400/80";
  bg = "bg-cyan-500/8";
  active_pill = "text-cyan-300 bg-cyan-500/15 border-cyan-500/30";
}

abbrev pub up_for_reschedule_style : StatusStyle
up_for_reschedule_style = record {
  dot = "bg-teal-400";
  glow = "shadow-[0_0_8px_rgba(45,212,191,0.5)]";
  label = "Up For Reschedule";
  text = "text-teal-400/80";
  bg = "bg-teal-500/8";
  active_pill = "text-teal-300 bg-teal-500/15 border-teal-500/30";
}

abbrev pub removed_style : StatusStyle
removed_style = record {
  dot = "bg-zinc-400";
  glow = "";
  label = "Removed";
  text = "text-zinc-400/80";
  bg = "bg-zinc-500/8";
  active_pill = "text-zinc-300 bg-zinc-500/15 border-zinc-500/30";
}

abbrev pub restarting_style : StatusStyle
restarting_style = record {
  dot = "bg-violet-400 animate-pulse";
  glow = "shadow-[0_0_8px_rgba(167,139,250,0.5)]";
  label = "Restarting";
  text = "text-violet-400/80";
  bg = "bg-violet-500/8";
  active_pill = "text-violet-300 bg-violet-500/15 border-violet-500/30";
}

abbrev pub no_status_style : StatusStyle
no_status_style = record {
  dot = "bg-slate-400";
  glow = "";
  label = "No Status";
  text = "text-slate-400/80";
  bg = "bg-slate-500/8";
  active_pill = "text-slate-300 bg-slate-500/15 border-slate-500/30";
}

abbrev pub unknown_style : StatusStyle
unknown_style = record {
  dot = "bg-slate-500";
  glow = "";
  label = "Unknown";
  text = "text-slate-500";
  bg = "bg-white/[0.02]";
  active_pill = "text-slate-300 bg-slate-500/15 border-slate-500/30";
}

abbrev pub status_config : List (String × StatusStyle)
status_config =
    ("success", success_style)
    ∷ ("failed", failed_style)
    ∷ ("upstream_failed", upstream_failed_style)
    ∷ ("running", running_style)
    ∷ ("queued", queued_style)
    ∷ ("skipped", skipped_style)
    ∷ ("up_for_retry", up_for_retry_style)
    ∷ ("deferred", deferred_style)
    ∷ ("scheduled", scheduled_style)
    ∷ ("up_for_reschedule", up_for_reschedule_style)
    ∷ ("removed", removed_style)
    ∷ ("restarting", restarting_style)
    ∷ ("no_status", no_status_style)
    ∷ ("unknown", unknown_style)
    ∷ []

-- the style of a key, with a default
unfoldable pub style_or : StatusStyle → String → List (String × StatusStyle) → StatusStyle
style_or default status [] = default
style_or default status ((key, style) ∷ entries) =
    if key === status then style else style_or default status entries

unfoldable pub get_status_style : String → StatusStyle
unfolding style_or
get_status_style status = style_or unknown_style status status_config

abbrev pub status_severity_order : List String
status_severity_order =
    "failed" ∷ "upstream_failed" ∷ "restarting" ∷ "up_for_retry" ∷ "running" ∷ "up_for_reschedule"
    ∷ "queued" ∷ "scheduled" ∷ "deferred" ∷ "skipped" ∷ "success" ∷ "removed" ∷ "no_status"
    ∷ "unknown" ∷ []
