-- ===== src/Files/Upload/Memory.antt =====
-- Programs that run on the memory of `Backend.Memory`: FastDFS takes one file and then is full.
use hydra_fs.Prelude.{◌≡◌, ◌≢◌, refl, Bool, true, false, some, [], inl, inr}
use hydra_fs.Text.{isspace, skip_front, skip_back, trim_space}
use hydra_fs.Base64.{codes}
use hydra_fs.Backend.Memory.{Memory, view}
use hydra_fs.Files.Upload.{Started, in_child, printed, Programs, printed_id}
use hydra_fs.Files.Upload.Safety.{with_file, Uploads, ProgramsContract}

taken : Bool → Memory → Started × Memory
taken true m = (printed [], m)
taken false m =
    (printed (codes "group1/M00/n\n"), record m { state = with_file "group1/M00/n" m.state })

unfoldable pub programs : Programs Memory
unfolding taken
programs = record {
  fdfs_upload_file = λ filename m. taken (m.state.stored "group1/M00/n") m;
  fdfs_file_info = λ fileid m. (printed (codes "source ip address: 10.0.0.2\n"), m);
  unlink = λ filename m. (tt, m);
  web_server_port = some (codes "80");
  web_server_ip = some (codes "10.0.0.1");
  text = λ id. "group1/M00/n";
}

taken_upload :
    (b : Bool) (m : Memory)
    → m.state.stored "group1/M00/n" ≡ b
    → Uploads (λ id. "group1/M00/n") (taken b m).0 (view m) (view (taken b m).1)
unfolding taken printed_id trim_space skip_front skip_back isspace
taken_upload true m e = inl (inl refl, refl)
taken_upload false m e = inr (codes "group1/M00/n", refl, e, refl)

taken_read : (b : Bool) (m : Memory) → (taken b m).0 ≢ in_child
unfolding taken
taken_read true m e = cc
taken_read false m e = cc

pub programs-Runs : ProgramsContract programs view
unfolding programs
programs-Runs = record {
  upload = λ filename m. taken_upload (m.state.stored "group1/M00/n") m refl;
  executable = λ filename m e. taken_read (m.state.stored "group1/M00/n") m e;
  executable_info = λ fileid m e. cc;
  file_info = λ fileid m. refl;
  unlink = λ filename m. refl;
}
