-- ===== src/Lib.antt =====
-- The core of a recovery image: what decides whether an update is installed, and what writes it.
--
-- An update package is a signed archive. verifier.c accepts or refuses the file; minzip reads its
-- entries; edify evaluates the updater-script in it, with functions that patch files (applypatch)
-- and write raw flash partitions (mtdutils); bootloader.c tells the bootloader what to do next. The
-- development has a module for each of these parts.
--
-- Base: the names all parts share, lists measured by native numbers, Boolean tests, signed numbers.
--
-- Edify: edify/expr.c and edify/expr.h. A `Function` is C's, with argv for argc and argv; an
--   evaluation (`M`) goes from a state to an outcome: a result, NULL, or an access out of bounds.
--   The state is State, with two logs of what fputs and sleep were given. State has the types and
--   ErrorAbort, Expr the evaluation and Read*Args, Strings strstr and strtol (a long of 32 bits),
--   Builtins the functions that RegisterBuiltins names, Operators those of the parser. Table the
--   function table, with qsort as an insertion sort and bsearch halving the distance of its bounds,
--   with one round more than there are entries as fuel. Laws are equations between evaluations, and
--   Runs says what a call answers by the evaluations of its arguments; Ends, Errors and Scripts are
--   about how an evaluation ends, Substring about is_substring. Memory is never short.
--
-- Minzip: minzip/Bits.h and minzip/Hash.c. In Bits a pointer is the list of the bytes from it on,
--   `none` an access beyond them; an int and a size_t have 32 bits. In Hash the array of the table
--   is a list, an item's pointer is a number, and counts are not bounded; a loop over the array has
--   as fuel its length, since a probe meets a vacant entry before it meets an entry again.
--   Hash/Slots, Reach and Probing are about the array and the probes in it, Valid holds the table's
--   invariant, Contract and Removal what the operations do to the set of items.
--
--   Hash/Create and Rounding have the size of a new table, OrDigits the or of binary digits.
--
-- Minzip.Zip: minzip/Zip.c on the 32-bit machines of the devices. The map is a list of bytes with an
--   address, a pointer into it its distance from the start; `unspecified` is a read outside it, a
--   failed assert, or a loop out of rounds. Zip has the entries, names and hash codes, and
--   mzFindZipEntry, Parse the reading of the directory: the binary search has a round more than
--   there are entries. Contents has the process functions and their callers, Extract
--   mzExtractRecursive. Reads of the file, zlib, safe_iop, the system calls and dirCreateHierarchy
--   are parameters, and so is the number of rounds where only zlib or the system bounds a loop. An
--   entry is named by its index. Format says what the headers of an archive are; Order, Search,
--   Ends, Entries, Directory and Opened are about the reading, Index about the hash table, Chunks
--   and Stored about stored entries, Under about what is extracted.
--
-- Verifier: verify_file of verifier.c. A file is its bytes, and each read of it gives them.
--   Mincrypt holds what libmincrypt gives: two digests, fed piece by piece, and the RSA check. The
--   loop over the file has as fuel one round more than there are bytes to hash; each takes one at
--   least. Accepted describes the files that are accepted, with no reading in pieces and no search.
--   Progress on the screen is left out.
--
-- Applypatch: applypatch/bspatch.c, and offtout of applypatch/bsdiff.c. Bzlib holds what libbzip2
--   gives: a stream delivers its contents in pieces, no piece empty. Bspatch has the functions,
--   with off_t of 64 bits, ssize_t and pointers wide enough for the file; an access outside a
--   buffer, or an overflow, is `undefined`. The fuel bounds the rounds of each loop, and is an
--   argument: a round takes an entry of the control block, or a byte of a stream. Format has the
--   meaning of a patch, Bytes that of the addition of old bytes.
--
-- Applypatch.Patching: applypatch/applypatch.c and applypatch/freecache.c. A disk is a map from paths to
--   contents with all its earlier states, and `System` says what each system call does: whether it
--   fails, how much a failed write has written, which files are listed and which are open. An
--   operation is a function from disks to answers and disks. The write of a whole file counts as one
--   change, and so does all that a patch writes. Target has GenerateTarget, whose loop makes two
--   rounds at most, Sources has applypatch and applypatch_check, and Space the removal of files from
--   the cache. Logic holds rules on what is kept by every change; Keeps, Tries, Backup, Rounds,
--   Generate and Restart follow the operations with them, for a target that is a file. Steady and
--   Answers follow a run in which no call fails; Checked is about applypatch_check, and Digests about
--   ParseSha1. Partitions, digests, the two kinds of patches and retouch_mask_data of minelf/Retouch.c
--   come from `System`.
--
-- Mtdutils: reading and writing in mtdutils/mtdutils.c. Flash holds what the kernel gives behind a
--   file descriptor: any device, with no law; the theorems on reading suppose that a complete read
--   has the length asked for. Write and Read have a function for each operation and each loop, with
--   fuel: write_block one round more than the partition has bytes and read_block two, since a round
--   moves a block on; mtd_write_data and mtd_read_data a round for each byte, which a round takes,
--   and one more to fill the buffer in reading. Write/Blocks is about one block, Write/Stream,
--   Write/Data, Read/Stream, Read/Round and Read/Data about a partition as a stream of bytes,
--   Write/Start about finding the first block again. A partition is smaller than 2 ^ 31 bytes.
--
-- Bootloader: the message to the bootloader on raw flash, get_bootloader_message_mtd and
--   set_bootloader_message_mtd of bootloader.c, over the operations of Mtdutils. Pages has the
--   place of the message, Message what is left on the partition.
--
-- Not modelled: edify's lexer and parser (generated code), the iterator of a hash table, the opening
-- and closing of an archive's file, load_keys, the scan of partitions in mtdutils, the partitions
-- that applypatch reads and writes, image patches, the updater's own functions, the main program,
-- menus, drawing, and the copies of other projects (loki, minadbd, the differ of bsdiff.c).
pub mod Base
pub mod Edify
pub mod Minzip
pub mod Verifier
pub mod Applypatch
pub mod Mtdutils
pub mod Bootloader
