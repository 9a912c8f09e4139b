-- ===== src/Client/SameMaps.antt =====
-- Operations of fproxy-rs/src/client.rs that leave the maps of UDP sessions alone.
use fproxy.Base.{ℕ, ◌≡◌, refl, nat_eq, ◌∙◌}
use fproxy.Client.State.{Client, key_Eq}
use fproxy.Client.Maps.{IsInverse, Issued}

-- What one operation leaves alone.
pub record SameMaps (c d : Client) : Type 0 where
  pub sessions : d.udp_sessions ≡ c.udp_sessions
  pub addrs : d.udp_session_addrs ≡ c.udp_session_addrs
  pub counter : d.session_id_counter ≡ c.session_id_counter
  pub cfg : d.cfg ≡ c.cfg

pub SameMaps-IsInverse : (c d : Client) → SameMaps c d → IsInverse c → IsInverse d
SameMaps-IsInverse c d m v = record {
  sessions_map = rw m.sessions v.sessions_map;
  forward = λ a s g. rw m.addrs (v.forward a s (rw (← m.sessions) g));
  backward =
      λ id a g. let (s, gs, e) = v.backward id a (rw (← m.addrs) g) in (s, rw m.sessions gs, e);
}

pub SameMaps-Issued :
    (initial n : ℕ) (c d : Client) → SameMaps c d → Issued initial n c → Issued initial n d
SameMaps-Issued initial n c d m v = record {
  counter = m.counter ∙ v.counter;
  ids = λ id a g. v.ids id a (rw (← m.addrs) g);
}

pub SameMaps-trans : (c d e : Client) → SameMaps c d → SameMaps d e → SameMaps c e
SameMaps-trans c d e m n = record {
  sessions = n.sessions ∙ m.sessions;
  addrs = n.addrs ∙ m.addrs;
  counter = n.counter ∙ m.counter;
  cfg = n.cfg ∙ m.cfg;
}

pub SameMaps-refl : (c : Client) → SameMaps c c
SameMaps-refl c = record { sessions = refl; addrs = refl; counter = refl; cfg = refl }
