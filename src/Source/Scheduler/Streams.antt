-- ===== src/Source/Scheduler/Streams.antt =====
-- The open streams of internal/source/scheduler.go as a set of plugins with keys.
use botkube.Base.{
  String, ◌≡◌, sym, inl, inr, false, ◌&&◌, ◌||◌, [], arith, ◌==◌, eq_iff, remove,
  get_or_zero-insert, lookup-remove, get_or_zero, contains, if◌then◌else◌, Bool-cases,
}
use botkube.Base.Adds.{StringSet, put}
use botkube.Source.Scheduler.{
  OpenedStreams, report_started_stream_with_configuration, delete_all_started_streams_for_plugin,
  is_started_stream_with_configuration,
}

contains-put :
    (s x : String) (set : StringSet) → contains (put s set) x ≡ (contains set x || (s == x))
unfolding put
contains-put s x set = ground (arith, eq_iff s x)

get_or_zero-remove :
    (p q : String) (streams : OpenedStreams)
    → get_or_zero [] p (remove q streams) ≡ (if q == p then [] else get_or_zero [] p streams)
get_or_zero-remove p q streams = ground (arith, lookup-remove q p streams)

pub is_started-report :
    (p k q j : String) (streams : OpenedStreams)
    → is_started_stream_with_configuration p k
        (report_started_stream_with_configuration q j streams)
      ≡ (is_started_stream_with_configuration p k streams || ((q == p) && (j == k)))
unfolding is_started_stream_with_configuration report_started_stream_with_configuration
is_started-report p k q j streams =
    rw (get_or_zero-insert [] (put j (get_or_zero [] q streams)) q p streams)
      (elim (Bool-cases (q == p)) [
        | inl e ↦ rw e (rw (sym ((eq_iff q p).0 e)) (contains-put j k (get_or_zero [] q streams)))
        | inr e ↦ rw e (ground arith)
      ])

pub is_started-delete :
    (p k q : String) (streams : OpenedStreams)
    → is_started_stream_with_configuration p k (delete_all_started_streams_for_plugin q streams)
      ≡ (if q == p then false else is_started_stream_with_configuration p k streams)
unfolding is_started_stream_with_configuration delete_all_started_streams_for_plugin
is_started-delete p k q streams = ground (arith, get_or_zero-remove p q streams)
