-- ===== src/Lib.antt =====
-- system-sw: a linear allocator, a zone allocator and the file system ffs.
--
-- linear-allocator/allocator.c (Linear.antt and below). `mi.memory` is a map from offsets to
-- bytes (Memory.antt), and headers are bytes in it; a pointer into the region is its offset,
-- `NULL` is `none`. Each C function is a definition of the same name: write_raw_header,
-- write_header, alc_init, mem_alloc, mem_realloc, mem_free, mem_dump. Words wrap at 2 ^ 32
-- (Prelude/Word.antt): the source casts pointers to `int`, so it is read on a 32-bit target,
-- with a header of 12 bytes. What the uninitialised header of write_raw_header holds is the
-- parameter `junk`, a function of memory. A loop or a recursion takes `mi.amount` as fuel:
-- each round passes or absorbs a header of 12 bytes, and on a valid region that many rounds
-- are enough. Linear/Chain.antt and Linear/Heap.antt say what a valid region is,
-- Linear/Write.antt what write_header does to one; Linear/Alloc, Linear/Free, Linear/Init and
-- Linear/Dump hold the operations' theorems, Linear/Realloc those of mem_realloc, a definition
-- for each of its branches; Linear/Tests and Linear/Realloc/Cases run them. The undeclared
-- `memfree` is a parameter. Linear/Client is a program that uses the allocator: a step
-- relation whose steps are calls of it and writes of single bytes inside the program's own
-- blocks, with the bytes that the program knows.
--
-- linear-allocator/main.c (Linear/Args.antt for its command line, Linear/Driver.antt and
-- below). The numbers that `rand()` gives are a parameter, a function of how many were taken;
-- the loop of test_mem takes 20 rounds of fuel, since its bound is below 20, and that of
-- alloc_test as many as the region has bytes, since each round makes the free block smaller.
-- The arrays are lists; the one of alloc_test has its bound, and those of test_mem have more
-- places than the region has room for blocks. Printing and timing are left out.
--
-- fs/ffs.c, fs/ffs.h and fs/const.h (Ffs.antt and below). A disk block is the bytes of its
-- buffer; inodes are objects in a store, named by references. Ffs/Bitmask holds the bit masks
-- (CHECK_BIT, SET_BIT, RESET_BIT, ffs_write_b_bitmask, ffs_get_empty_block and the like),
-- Ffs/Inode the descriptors on the disk (ffs_write_inode, ffs_iget, ffs_clear_fd), Ffs/File
-- the functions file_read and file_write, Ffs/Dir the directories (add_to_dir,
-- remove_from_dir, ffs_lookup, ffs_f_readdir), Ffs/Ops the operations on inodes (ffs_create,
-- ffs_mkdir, ffs_symlink, ffs_link, ffs_unlink, ffs_rmdir, ffs_setattr, ffs_follow_link),
-- Ffs/Mount the mount (ffs_fill_super, ffs_read_root), and Ffs/Tests small images. Ffs/Volume
-- says when a volume is in order: its masks are in step with the disk, and the blocks in front
-- of the data are marked. Ffs/File/Append and Ffs/File/Grow are about files that get more
-- blocks, Ffs/Dir/Add and Ffs/Dir/Dropped about names that come and go, Ffs/Ops/Parent,
-- Ffs/Ops/Fill and Ffs/Ops/Created about create_entry, step by step. file_read takes `max + 1`
-- rounds of fuel, file_write `len + 1`: each round moves a byte or more. A directory is read in
-- at most `size + 2` calls. `sb_bread` is taken to find every block
-- but the one that no free block gives a number to, and allocations to succeed; a write behind
-- a datablock is no result. What `new_inode` returns and what an uninitialised entry holds are
-- parameters, as are `filldir` and the `memcpy` that remove_from_dir calls for ranges that
-- overlap. Locks, logging and reference counts are left out.
--
-- zone-allocator/allocator.c (Zone.antt and below): pages, their descriptors and the lists
-- of classes in Zone, find_free_pages and the blocks of several pages in Zone/Pages,
-- alloc_page, mem_alloc, free_page and mem_free in Zone/Ops, mem_realloc in
-- Zone/Ops/Realloc (Move below it is about blocks of several pages), round_pow_2 in
-- Zone/Rounding, mem_dump in Zone/Dump, and small memories in Zone/Tests. Zone/Ops/Chain,
-- Drain and Fresh are about a page whose blocks are handed out one after the other, Whole,
-- GiveBack and Cycle about a whole page handed out and given back. Descriptors are objects
-- named by addresses; a descriptor has 24 bytes, as on a 32-bit target. The tables are
-- apart from the pages, as they are where they fit into page 0. The descriptors, the words
-- at the start of free blocks and the data are maps of their own: they stand for the one
-- memory as long as a program frees only the blocks it has, once, and writes only into
-- these. mem_alloc and mem_free call each other for the blocks of descriptors: the model
-- allows four nested calls, since a page for descriptors has its own descriptor in it, and
-- a further call has no result; Zone/Ops/Post, Local, OfDescriptor, PageSize, Linked and
-- Depth are about this bound.
--
-- fs/mkfs.ffs/mkfs.c (Mkfs.antt and below): the image that mkfs.ffs writes over a file's
-- bytes. Mkfs/Layers and Mkfs/Image say what lies where in it, Mkfs/Readback what the kernel
-- module reads there, and Mkfs/Fresh and Mkfs/Contents are about the image mounted by
-- Ffs/Mount and used by Ffs/Dir and Ffs/File. The image is of a file of zeros, of 12800 bytes
-- or more (a root directory and two files need that many) and of at most 4096 blocks, since
-- the kernel module reads one block of a mask. The loop over the mask's bits takes as many
-- rounds of fuel as there are bits. `open`, `lseek` and `write` are taken to succeed.
--
-- zone-allocator/main.c (Zone/Driver.antt): its command line and its 2000 random steps, over
-- the random numbers as a parameter.
--
-- Not modelled: logging, unmounting and the registration of the kernel module, the wrappers by
-- which the kernel calls file_read and file_write, and the Python scripts.
pub mod Prelude
pub mod Memory
pub mod Linear
pub mod Ffs
pub mod Zone
pub mod Mkfs
