-- ===== src/Lib.antt =====
-- VeriFS2, an in-memory file system behind libfuse with checkpoints, in the parts that decide what a
-- request does: src/*.cpp and src/*.hpp. A request is a call of one of the static methods Fuse... of
-- class FuseRamFs (src/fuse_cpp_ramfs.cpp); a model of it takes the state, returns the replies in
-- order and the new state, or `none` where the program would fail an assertion, follow a null
-- pointer or leave a buffer.
--
-- Base: Booleans, options, lists and 64-bit words over the native numbers.
-- Types, Replies: the data of the classes, struct stat and struct statvfs; the fuse_reply_ calls.
-- Memory: malloc, realloc, memmove and memset on lists of bytes. Which sizes the allocator grants and
--   what fresh memory holds is a parameter.
-- Blocks: get_nblocks and round_up (src/util.hpp); UpdateUsedBlocks, UpdateUsedInodes and
--   CheckHasSpaceFor (src/fuse_cpp_ramfs.hpp).
-- File: FileTruncate, WriteAndReply, ReadAndReply (src/file.cpp). File.Shape is the invariant; Truncate,
--   Write and Read are what each method does on each of its branches; Keeps what they leave alone.
-- Names, Directory: comparison of names; _AddChild, _RemoveChild, _UpdateChild, UpdateSize and find
--   (src/directory.cpp). Children reads the list as a map; Changes and Updates are what each method does;
--   Keeps is what every method leaves alone.
-- Inode: src/inode.cpp and src/inode.hpp; Inode.Xattr the extended attributes.
-- Fs: the inode table and counters of FuseRamFs; Fs.Create, Fs.Entries and Fs.Access the handlers that
--   make objects, change names, and reach one inode. The table holds the objects by value, and a
--   method's effect is written back into its slot, so all names of an inode see it.
--   Fs.Access.RoundTrip reads back a write, Fs.Entries.Unlinked looks up a removed name, and
--   Fs.Entries.Links is about the loop of FuseRmdir. Fs.Mount is the constructor and FuseInit, Fs.Requests
--   the table of handlers and runs of them, Forgets the run that frees an inode.
--   Fs.Checkpoint is the state pool (src/cr_util.cpp), checkpoint and restore; Laws how they fit.
--   Fs.ReadDir is FuseReadDir with PrepareReaddir and RecycleStates (src/directory.cpp); Fill is its
--   loop, Listing what it replies.
-- Pickle: bytes and the layout of structs, which is a parameter. Methods has GetPickledSize, Pickle and
--   Load of the five classes; Size, Loads, Parts and RoundTrip how they fit. Runs has the exceptions of
--   src/pickle.cpp and the calls on a file as a parameter; System is pickle_file_system, Loading
--   load_file_system, Emits, Slots, Queues, Loads, Pools and Lookups the steps of their round trip.
--   StateFile has the file with its header: fetch_filepath and verify_state_file, Save pickle_verifs2,
--   Load load_verifs2, Rules and Keeps how its steps leave the file system, Inversion and Steps what a
--   run that returns has gone through, Ends how a load ends, Hashing its loop, Matches what an accepted file has; Disk is what a machine does with the open
--   state file, Saved and Restored what pickle_verifs2 leaves there and load_verifs2 makes of it, RoundTrip
--   both in a row.
-- Ioctl: FuseIoctl, which calls Fs.Checkpoint and Pickle.StateFile; Restores a checkpoint and a restore by
--   ioctl. Options: SizeStr2Number (src/util.cpp), Numbers what it reads; Parse is
--   ramfs_parse_options, Items lists of options, Passed what is set and passed on, Room the buffer;
--   Arguments is erase_arg.
-- Ledger: an abstract allocator of inode numbers; Sound its invariant, View how a file system's state
--   is read as one, Always the rules that follow a handler's code; Register, Create, Makes, Entries, Access
--   and Queries the handlers as steps of the allocator, Requests all of them and their runs from a mount,
--   Rollback a run between a checkpoint and a restore.
-- Tests: runs at concrete inputs.
--
-- Integers are natural numbers below 2 ^ 64 with the wrap-around written out, signed ones their two's
-- complement patterns. The clock, the caller and the allocator are arguments; so is Abi, the sizes of
-- the C++ library's types that a directory's size is made of. Of the three loops without a bound of their own,
-- the decrements of FuseRmdir, runs on fuel equal to the link count; the loop that
-- hashes a state file runs on fuel, for which one more than the number of bytes in the file is enough. So does
-- the loop over the tokens of mount options, which need not end; one more than their number is enough where it does.
--
-- Not modelled: the locks (a handler is one step); a checkpoint of an inode with extended attributes,
-- whose buffers the program shares; FuseDestroy, which frees memory; the
-- command line but for the string of mount options and the removal of an argument; the programs
-- around the library; debug output.
pub mod Base
pub mod Types
pub mod Replies
pub mod Memory
pub mod Blocks
pub mod File
pub mod Names
pub mod Directory
pub mod Inode
pub mod Fs
pub mod Ledger
pub mod Pickle
pub mod Ioctl
pub mod Options
pub mod Tests
