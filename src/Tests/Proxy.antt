-- ===== src/Tests/Proxy.antt =====
-- The theorems on the proxy at concrete inputs.
use prime_server.Prelude.{ℕ, ◌≡◌, none, some, [], ◌∷◌, Bytes, codes}
use prime_server.Prelude.Maps.{find, emplace, nat_key, bytes_key}
use prime_server.Prelude.Effects.{value}
use prime_server.Proxy.{
  Proxy, Choose, idle_proxy, handle_heart_beat, handle_job, refused, delivered, record_heart_beat,
}
use prime_server.Proxy.Links.{
  IsLinked, Links, handle_heart_beat-Links, handle_job-Links, handle_job_delivered,
}

idle_proxy-IsLinked : IsLinked idle_proxy
unfolding find
idle_proxy-IsLinked = record {
  worker_beat = λ w n h. cc h;
  beat_worker = λ n w h. cc h;
  beat_old = λ n w h. cc h;
  fifo_beat = λ n b h. cc h;
  beat_fifo = λ n w h. cc h;
}

-- One worker is idle.
abbrev one_idle : Proxy
one_idle = record {
  fifo = (0, codes "beat") ∷ [];
  workers = (codes "w", 0) ∷ [];
  heart_beats = (0, codes "w") ∷ [];
  next_node = 1;
  forwarded = [];
}

one_idle-IsLinked : IsLinked one_idle
unfolding handle_heart_beat record_heart_beat find emplace
one_idle-IsLinked =
    handle_heart_beat-Links (codes "w") (codes "beat") [] idle_proxy idle_proxy-IsLinked

-- The application chooses no node that there is.
abbrev astray : Choose
astray = some (λ fifo job. some 7)

handle_heart_beat-Links_example : Links (handle_heart_beat (codes "v" ∷ codes "beat" ∷ []) one_idle)
handle_heart_beat-Links_example =
    handle_heart_beat-Links (codes "v") (codes "beat") [] one_idle one_idle-IsLinked

handle_job-Links_example :
    Links (
      handle_job astray
        (λ _ _. refused)
        (codes "server" ∷ codes "info" ∷ codes "job" ∷ [])
        one_idle)
handle_job-Links_example =
    handle_job-Links astray (λ _ _. refused) (codes "server") (codes "info") (codes "job" ∷ [])
      one_idle one_idle-IsLinked (λ e. cc e)

handle_job_delivered_example :
    (address : Bytes) × (node : ℕ) × (q : Proxy) × (handle_job none
        (λ _ _. delivered)
        (codes "server" ∷ codes "info" ∷ codes "job" ∷ [])
        one_idle
      ≡ value tt q)
    × (find address one_idle.workers ≡ some node)
    × (find address q.workers ≡ none)
    × (q.forwarded ≡ (address, codes "info" ∷ codes "job" ∷ []) ∷ [])
handle_job_delivered_example =
    handle_job_delivered none (codes "server") (codes "info") (codes "job" ∷ []) one_idle
      one_idle-IsLinked (λ e. cc e)
