-- ===== src/Tests/Files.antt =====
-- Runs of the theorems on files.
use veri_fs.Base.{◌≡◌, refl, arith, replicate, some, [], ◌∷◌, ℤ}
use veri_fs.Memory.{memmove}
use veri_fs.Replies.{Reply, buf, write}
use veri_fs.Blocks.{get_nblocks}
use veri_fs.File.{FileState, write_and_reply, read_and_reply, file_truncate, write_into, zero_fill}
use veri_fs.File.Shape.{IsFile}
use veri_fs.File.Write.{Writes, write_and_reply-Writes}
use veri_fs.File.Truncate.{Truncates, file_truncate-Truncates}
use veri_fs.File.Read.{after_read, read_and_reply-contents, read_and_reply-write_and_reply}
use veri_fs.Tests.Data.{megabyte, hello, bang}

hello-IsFile : IsFile hello
unfolding get_nblocks
hello-IsFile = record {
  blocks = refl;
  buffer = refl;
  size_range = omega arith;
  free_range = omega arith;
}

write_and_reply-Writes_example :
    (r : Reply) × (g : FileState) × (write_and_reply megabyte 9 bang 1020 hello ≡ some (r, g))
    × Writes megabyte hello bang 1020 r g
write_and_reply-Writes_example =
    write_and_reply-Writes megabyte 9 bang 1020 hello hello-IsFile (omega arith)

file_truncate-Truncates_example :
    (r : ℤ) × (g : FileState) × (file_truncate megabyte 9 700 hello ≡ some (r, g))
    × Truncates megabyte hello 700 r g
file_truncate-Truncates_example =
    file_truncate-Truncates megabyte 9 700 hello hello-IsFile (omega arith)

read_and_reply-contents_example :
    read_and_reply 9 100 2 hello ≡ some (buf (b'l' ∷ b'l' ∷ b'o' ∷ []), after_read 9 2 hello)
read_and_reply-contents_example =
    read_and_reply-contents 9 100 2 hello hello-IsFile (omega arith) (omega arith)

-- The file after two bytes were put over its end.
abbrev hello_bang : FileState
hello_bang = record hello {
  attr = record hello.attr { st_size = 6; st_ctim = 9; st_mtim = 9 };
  m_buf = b'h' ∷ b'e' ∷ b'l' ∷ b'l' ∷ b'!' ∷ b'?' ∷ replicate 506 0xaa;
}

hello_bang_written : write_and_reply megabyte 9 bang 4 hello ≡ some (write 2, hello_bang)
unfolding write_and_reply write_into zero_fill memmove
hello_bang_written = refl

read_and_reply-write_and_reply_example :
    read_and_reply 10 2 4 hello_bang ≡ some (buf bang, after_read 10 4 hello_bang)
read_and_reply-write_and_reply_example =
    read_and_reply-write_and_reply megabyte 9 10 bang 4 hello hello_bang hello-IsFile (omega arith)
      hello_bang_written
