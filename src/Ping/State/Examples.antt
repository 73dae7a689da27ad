-- ===== src/Ping/State/Examples.antt =====
-- A restart after a week and a day.
use srx.Prelude.{ℕ, ◌≡◌, refl, some, [], ◌∷◌}
use srx.Ping.{Bucket}
use srx.Ping.Monitor.{Config}
use srx.Ping.State.{Stats, State, floor_of, load_state, load_window, appended, fresh, empty_window}

abbrev bucket : ℕ → Bucket ℕ
bucket id = record { id = id; sent = 60; recv = 59; sum = 600; min = some 9; max = some 12 }

abbrev stats : Stats
stats = record {
  sent = 120;
  recv = 118;
  big_sent = 120;
  big_recv = 0;
  big_err = "timeout";
  started = 60;
}

abbrev saved : State ℕ
saved = record {
  windows = record {
    default = record {
      closed = bucket 60 ∷ bucket 86580 ∷ bucket 691200 ∷ [];
      cur = some (bucket 691260);
    };
    big = empty_window;
    wifi = empty_window;
  };
  stats = stats;
}

abbrev config : Config
config = record { history = 300; buckets = 10080; bucket_sec = 60 }

-- The bucket of the first minute is older than a week.
restart : load_state config 7 691320 (fresh stats) saved ≡ record saved {
  windows = record saved.windows {
    default = record { closed = bucket 86580 ∷ bucket 691200 ∷ []; cur = some (bucket 691260) };
  };
}
unfolding load_state load_window appended floor_of
restart = refl
