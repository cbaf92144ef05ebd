-- ===== src/Tests/Snapshots.antt =====
-- References to snapshots, on a file system with one legacy archive.
use lstk.Validate.{pod_name, contains_control_chars}
use lstk.Text.Search.{has_prefix, cut_last}
use lstk.Snapshot.Destination.Pods.{parse_source-pod_ref}
use lstk.Text.Decimal.{parse_uint}
use lstk.Validate.Names.{IsPodName}
use lstk.Snapshot.Destination.{
  missing, require_pod, file, parse_source, resolve_source_path, parse_cloud_only, Stat,
}
use lstk.Snapshot.Reference.{parse_remote, parse_pod_ref, scheme_of, pod, pod_ref, Url, Destination}
use lstk.Snapshot.Destination.Cloud.{parse_cloud_only-IsCloudRef, IsCloudRef}
use lstk.Prelude.{◌≡◌, refl, true, Option, none, [], arith, ◌==◌, nat_eq, if◌then◌else◌, ok}
use lstk.Text.Basic.{text_beq, is_control, to_lower, byte_len, Text, codes, text_eq}

abbrev one_archive : Text → Stat
one_archive p = if p == codes "/w/state.zip" then file else missing

abbrev no_url : Text → Option Url
no_url ref = none

abbrev third_version : Destination
third_version = record { kind = pod; value = codes "my-pod"; version = 3 }

my_pod-IsPodName : IsPodName (codes "my-pod")
my_pod-IsPodName = record { nonempty = refl; fits = unfold byte_len in omega arith; allowed = refl }

parse_showable_run :
    parse_cloud_only one_archive no_url (codes "/w") [] (codes "pod:my-pod:3") true
    ≡ ok third_version
unfolding parse_cloud_only has_prefix to_lower parse_source parse_remote scheme_of parse_pod_ref
    cut_last parse_uint pod_name contains_control_chars is_control byte_len require_pod
parse_showable_run = refl

parse_cloud_only-IsCloudRef_example :
    (parse_source one_archive no_url (codes "/w") [] (codes "pod:my-pod:3") ≡ ok third_version)
    × IsCloudRef true third_version
parse_cloud_only-IsCloudRef_example =
    parse_cloud_only-IsCloudRef one_archive no_url (codes "/w") [] (codes "pod:my-pod:3") true
      parse_showable_run

parse_source-pod_ref_example :
    parse_source one_archive no_url (codes "/w") [] (pod_ref (codes "my-pod") 3) ≡ ok third_version
parse_source-pod_ref_example =
    parse_source-pod_ref one_archive no_url (codes "/w") [] (codes "my-pod") 3 my_pod-IsPodName
      (omega arith)

legacy_archive : resolve_source_path one_archive (codes "/w/state") ≡ ok (codes "/w/state.zip")
unfolding resolve_source_path text_beq
legacy_archive = refl
