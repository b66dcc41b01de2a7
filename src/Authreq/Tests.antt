-- ===== src/Authreq/Tests.antt =====
-- Paths as they are sent, read and searched for dot segments.
use cynative.Base.{String, Str, codes, ◌≡◌, refl, ◌↔◌, true, false, [], ◌∷◌, Memᴰ, split}
use cynative.Authreq.View.{View}
use cynative.Authreq.Path.{path_readings, wire_readings, has_dot_segment}
use cynative.Authreq.Segments.{IsDotSegment, has_dot_segment_iff}
use cynative.Authreq.Readings.{IsDistinct, path_readings-IsDistinct, IsReading, path_readings_iff}

abbrev sent_as : String → String → View
sent_as escaped decoded = record {
  method = codes "GET";
  hostname = codes "s3.amazonaws.com";
  port = [];
  path = codes decoded;
  escaped_path = codes escaped;
  raw_query = [];
  body = [];
}

abbrev bucket_key : View
bucket_key = sent_as "/bucket/a%2Fb/" "/bucket/a/b/"

readings :
    path_readings bucket_key
    ≡ (codes "bucket" ∷ codes "a%2Fb" ∷ [] ∷ [])
      ∷ (codes "bucket" ∷ codes "a" ∷ codes "b" ∷ [] ∷ [])
      ∷ (codes "bucket" ∷ codes "a%2Fb" ∷ [])
      ∷ (codes "bucket" ∷ codes "a" ∷ codes "b" ∷ [])
      ∷ []
unfolding path_readings
readings = refl

root_reading : path_readings (sent_as "/" "/") ≡ ([] ∷ []) ∷ []
unfolding path_readings
root_reading = refl

separators_only : wire_readings (sent_as "//" "//") ≡ ([] ∷ [] ∷ []) ∷ []
unfolding wire_readings
separators_only = refl

dot_segments :
    (has_dot_segment (codes "/repos/a/%2e%2E/b") ≡ true)
    × (has_dot_segment (codes "/repos/..;x/b") ≡ true)
    × (has_dot_segment (codes "/repos/a%2F../v1.2/...") ≡ false)
unfolding has_dot_segment
dot_segments = (refl, refl, refl)

has_dot_segment_iff_example :
    (has_dot_segment (codes "/a/%2e.") ≡ true)
    ↔ ((seg : Str) × Memᴰ seg (split b'/' (codes "/a/%2e.")) × IsDotSegment seg)
has_dot_segment_iff_example = has_dot_segment_iff (codes "/a/%2e.")

path_readings-IsDistinct_example : IsDistinct (path_readings bucket_key)
path_readings-IsDistinct_example = path_readings-IsDistinct bucket_key

path_readings_iff_example :
    Memᴰ (codes "bucket" ∷ codes "a%2Fb" ∷ []) (path_readings bucket_key)
    ↔ IsReading bucket_key (codes "bucket" ∷ codes "a%2Fb" ∷ [])
path_readings_iff_example = path_readings_iff bucket_key (codes "bucket" ∷ codes "a%2Fb" ∷ [])
