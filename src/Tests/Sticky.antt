-- ===== src/Tests/Sticky.antt =====
-- Runs of pkg/csi/driver/sticky_attachment.go.
use storage_provider_openneb.Prelude.{
  ◌*◌, ◌≡◌, refl, str_eq, true, [], ◌∷◌, none, some, if◌then◌else◌,
}
use storage_provider_openneb.Prelude.Int.{pos}
use storage_provider_openneb.Golang.Clock.{second}
use storage_provider_openneb.Golang.Text.{trim_space}
use storage_provider_openneb.StickyAttachment.{StickyState, Entries, start_grace, get}

abbrev grace : StickyState
grace = record {
  volume_id = "vol-b";
  node_id = "node-1";
  backend = "local";
  datastore_id = pos 100;
  pvc_namespace = "default";
  pvc_name = "data";
  started_at = 10 * second;
  expires_at = 70 * second;
  grace_seconds = pos 60;
  reason = "maintenance";
  last_known_node_ready = true;
}

abbrev entries : Entries
entries =
    ("vol-b", grace)
    ∷ ("vol-a", record grace { volume_id = "vol-a"; expires_at = 50 * second })
    ∷ []

abbrev renewed : StickyState
renewed = record grace { started_at = 60 * second; expires_at = 120 * second }

-- The write fails, and the older grace of the volume is gone.
lost_run : get (start_grace entries renewed (some "conflict")).0 "vol-b" ≡ none
unfolding start_grace get storage_provider_openneb.Prelude.Keys.lookup
    storage_provider_openneb.Prelude.Keys.insert storage_provider_openneb.Prelude.Keys.delete
    trim_space
lost_run = refl
